-- ===== src/Lib.antt =====
-- A verification library for hcloud-operator, the Kubernetes operator that manages Hetzner Cloud
-- resources.
--
-- The program. A controller per kind of object (internal/controller) is a `Resource`: a Reconcile and
-- a Delete over the object, the hcloud client and the Kubernetes client. One loop that every kind
-- shares (internal/reconcile/base.go) fetches the object, puts the finalizer on it, calls Reconcile or,
-- for a deleted object, Delete, and writes conditions, events and metrics. The controllers call the
-- cloud through the interface of internal/hcloud/client.go, which FakeClient
-- (internal/hcloud/fake_client.go) implements in memory.
--
-- The model, and which file is about which code:
--   Base        notation, Boolean tests, and lemmas that all modules share.
--   Go          what the source uses of Go. Go/Fault: error values and the texts of fmt, kept as
--               lists of pieces. Go/Action: a call as a function from the shared state to a result (a
--               value, an error or a panic) and the state after it, so that what was written before an
--               error stays; `within t` is the wrapping of an error by fmt.Errorf("t: %w"), `attempt` a
--               call whose error is looked at. Go/Map, Go/Slice: maps as association lists, search,
--               removal and sorting. Go/Integer: int64 and int as bit patterns below 2 ^ 64, with
--               wrap-around where the source adds and signed comparisons. Go/Strings: the order of
--               strings, strings.Join, and the comparison of texts that fmt puts together.
--   Kube        conditions and finalizers of apimachinery and controller-runtime (the record `Meta`,
--               with the laws that the proofs use), the API client, the predicates on errors, and
--               RetryOnConflict: all parameters. Kube/Concrete and Kube/Cluster instantiate them.
--   Hcloud      the types and the interface of internal/hcloud/client.go, over a state `C` of the cloud.
--   V1alpha1    the objects of api/v1alpha1.
--   Fake        internal/hcloud/fake_client.go: servers, volumes, networks,
--               placement groups, firewalls, load balancers, floating and primary
--               IPs and certificates.
--   Reconcile   internal/reconcile/base.go. Reconcile/Object has `Managed` and `Resource`;
--               Reconcile/Loop has BaseReconciler: `reconcile` is Reconcile, cut into `converge` (after
--               the fetch), `finalize` (the deletion), `ensure_finalizer` and `delegate` (the call of
--               the domain logic, with `report_failure` and `report_success`). Events and the calls of
--               internal/metrics/metrics.go RecordReconcile are traces. Reconcile/World has the state
--               that the controllers share.
--   Server      internal/controller/hcloudserver_controller.go. Server/Status: syncStatus and
--               updateServerStatusWithRetry; Server/Network: ensureServerNetworkAttachment and the
--               placement group; Server/Resize: reconcileServerTypeMismatch; Server/Controller:
--               Reconcile, Delete and what lies between.
--   Volume      internal/controller/hcloudvolume_controller.go. Volume/Controller: Reconcile, Delete,
--               detachVolumeIfAttached and reconcileHCloudVolume, cut where the source has a comment.
--   Network     internal/controller/hcloudnetwork_controller.go. Network/Controller: Reconcile, Delete,
--               reconcileHCloudNetwork, its loop over the zones as `add_subnets`, and
--               updateNetworkStatusWithRetry.
--   PlacementGroup  internal/controller/hcloudplacementgroup_controller.go. PlacementGroup/Controller:
--               Reconcile, Delete and reconcileHCloudPlacementGroup.
--
--   Firewall    internal/controller/hcloudfirewall_controller.go. Firewall/Rules: firewallRulesFromSpec,
--               labelsMatch and firewallRulesMatch, its three loops as `count_up`, `count_down` and
--               `all_zero`; Firewall/Targets: partitionApplyTargets; Firewall/Controller: Reconcile,
--               Delete, desiredApplyResources and reconcileHCloudFirewall. The identity of a target,
--               Key of internal/hcloud/firewall.go, is `key` of Hcloud/Types.
--   FloatingIp  internal/controller/hcloudfloatingip_controller.go. FloatingIp/Controller: Reconcile,
--               Delete, resolveTargetServerID and reconcileHCloudFloatingIP with the ensure methods
--               for the metadata, the assignment and the reverse DNS.
--   PrimaryIp   internal/controller/hcloudprimaryip_controller.go, cut in the same way.
--   Certificate internal/controller/hcloudcertificate_controller.go. Certificate/Controller: Reconcile,
--               Delete and reconcileHCloudCertificate. CertificateReady of internal/hcloud/client.go is
--               `certificate_ready` of Hcloud/Types; the two constants of hcloud-go that it reads are
--               a parameter.
--   LoadBalancer  internal/controller/hcloudloadbalancer_controller.go. LoadBalancer/Controller:
--               Reconcile, Delete, getSelectedServerIDs, loadBalancerServicesFromSpec,
--               resolveCertificateIDs and reconcileLoadBalancerWithServices, its two loops over the
--               targets as `attach_selected` and `detach_unselected`. metav1.LabelSelector, its
--               compilation and its matching are parameters; the selector and its matches are a type
--               and a test of the reconciler.
--
-- State. A method of a controller works on a `Scope`: the world (the cloud of type `C`, the cluster of
-- type `K`) and the object that it was handed, whose status it writes. `set_status` is an assignment to
-- fields of the status, `in_cloud` a call of the hcloud client, `in_cluster` a call of the Kubernetes
-- client, and `look` reads the object. The theorems of a controller either hold for every client, or
-- for every client that meets the laws of an interface (`NamedCloud` of Server/Names, which FakeClient
-- fills in Server/FakeNames), or are about the client `FakeClient`. What is proved of the loop over any
-- `Resource` is used over the volume controller in Volume/Guarding.
--
-- Bounds. There is no fuel: the loops of the modelled code are over lists and are structural recursion,
-- and the retry of a conflict is a parameter. IDs and sizes are bit patterns; that two sizes are equal
-- is said by the two signed comparisons that the source makes.
--
-- Not modelled: time stamps of conditions and measured durations, logging, the mutex of FakeClient (each call holds it from
-- its first line to its last, so a call is one step), the order in which Go walks a map (the model walks
-- the list), the registration with controller-runtime, and the methods of Client that wrap hcloud-go,
-- with SyncLoadBalancerServices (internal/hcloud/loadbalancer_service.go) among them.
pub mod Base
pub mod Go
pub mod Kube
pub mod Hcloud
pub mod V1alpha1
pub mod Fake
pub mod Reconcile
pub mod Server
pub mod Volume
pub mod Network
pub mod PlacementGroup
pub mod Firewall
pub mod Certificate
pub mod LoadBalancer
pub mod FloatingIp
pub mod PrimaryIp
