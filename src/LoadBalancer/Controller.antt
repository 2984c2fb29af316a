-- ===== src/LoadBalancer/Controller.antt =====
-- Reconcile, Delete, and the methods that they call. `S` is metav1.LabelSelector.
use hcloud_operator.Base.{
  Bool, true, false, not, ◌&&◌, ◌||◌, ◌*◌, ◌%◌, String, List, [], ◌∷◌, ◌++◌, Option, none, some,
  ◌==◌, nat_eq, string_eq, if◌then◌else◌,
}
use hcloud_operator.Go.Fault.{Fault, Text, str, num, quoted, ok, fail, wrap}
use hcloud_operator.Go.Action.{Action, pure, raise, within, attempt, ◌>>=◌, ◌>>◌}
use hcloud_operator.Go.Integer.{Int64, is_set, lt_int}
use hcloud_operator.Go.Slice.{member, sort_by}
use hcloud_operator.Kube.Condition.{Meta, ConditionStatus, condition_true, condition_false}
use hcloud_operator.Kube.Client.{ApiErrors}
use hcloud_operator.Hcloud.Types.{
  LoadBalancerInfo, LoadBalancerCreateOpts, LoadBalancerServiceInfo, LoadBalancerHealthCheckInfo,
  LoadBalancerHealthCheckHttpInfo, CertificateInfo, CertificateConstants, Labels, certificate_ready,
}
use hcloud_operator.Hcloud.Api.{LoadBalancerApi, CertificateApi}
use hcloud_operator.Reconcile.Object.{CtrlResult, Resource, Scope, second}
use hcloud_operator.Reconcile.World.{World, in_cloud, in_cluster, look}
use hcloud_operator.V1alpha1.Server.{HcloudServer}
use hcloud_operator.V1alpha1.Certificate.{HcloudCertificate}
use hcloud_operator.V1alpha1.LoadBalancer.{
  HcloudLoadBalancer, HcloudLoadBalancerStatus, HcloudLoadBalancerServiceSpec,
  HcloudLoadBalancerHealthCheckSpec, HcloudLoadBalancerHealthCheckHttpSpec,
}
use hcloud_operator.Server.State.{requeue_delay, condition_type_ready}

abbrev pub hcloud_load_balancer_finalizer : String
hcloud_load_balancer_finalizer = "infra.hkc.io/loadbalancer-finalizer"

abbrev pub LoadBalancerScope : Type 0 → Type 0 → Type 0 → Type 0
LoadBalancerScope S C K = Scope (World C K) (HcloudLoadBalancer S)

-- `list_servers` is r.List, over all servers or those that a selector matches; `selector_error` is
-- the error of LabelSelectorAsSelector, and `selector_matches` the answer of Matches
-- for the labels of a server.
pub record HcloudLoadBalancerReconciler (S C K : Type 0) : Type 0 where
  pub hcloud_client : LoadBalancerApi C
  pub certificates : CertificateApi C
  pub constants : CertificateConstants
  pub get_certificate_object : String → Action K HcloudCertificate
  pub list_servers : Option S → Action K (List HcloudServer)
  pub selector_error : S → Option Fault
  pub selector_matches : S → Labels → Bool
  pub api_errors : ApiErrors
  pub meta : Meta

abbrev pub create_opts : {S : Type 0} → HcloudLoadBalancer S → LoadBalancerCreateOpts
create_opts o = record {
  name = o.metadata.name;
  load_balancer_type = o.spec.load_balancer_type;
  location = o.spec.location;
  network_zone = o.spec.network_zone;
  algorithm = o.spec.algorithm;
  labels = o.spec.labels;
}

-- `time.Duration(n) * time.Second`
abbrev pub seconds : Int64 → Int64
seconds n = (n * second) % 0x1_0000_0000_0000_0000

abbrev pub map_option : {A B : Type 0} → (A → B) → Option A → Option B
map_option f none = none
map_option f (some a) = some (f a)

abbrev pub http_info : HcloudLoadBalancerHealthCheckHttpSpec → LoadBalancerHealthCheckHttpInfo
http_info http = record {
  domain = http.domain;
  path = http.path;
  response = http.response;
  status_codes = http.status_codes;
  tls = http.tls;
}

abbrev pub health_check_info : HcloudLoadBalancerHealthCheckSpec → LoadBalancerHealthCheckInfo
health_check_info check = record {
  protocol = check.protocol;
  port = check.port;
  interval = map_option seconds check.interval_seconds;
  timeout = map_option seconds check.timeout_seconds;
  retries = check.retries;
  http = map_option http_info check.http;
}

-- `false`, or what the pointer points at
abbrev pub or_false : Option Bool → Bool
or_false none = false
or_false (some b) = b

abbrev pub service_info : HcloudLoadBalancerServiceSpec → List Int64 → LoadBalancerServiceInfo
service_info spec certificate_ids = record {
  protocol = spec.protocol;
  listen_port = spec.listen_port;
  destination_port = spec.destination_port;
  proxyprotocol = or_false spec.proxyprotocol;
  certificate_ids = certificate_ids;
  health_check = map_option health_check_info spec.health_check;
}

-- `ids` and `pending` of resolveCertificateIDs
pub record ResolvedCertificates : Type 0 where
  pub ids : List Int64
  pub pending : Bool

-- The first two results of loadBalancerServicesFromSpec
pub record ResolvedServices : Type 0 where
  pub services : List LoadBalancerServiceInfo
  pub pending : Bool

abbrev pub wait_certificate : ResolvedCertificates → ResolvedCertificates
wait_certificate acc = record acc { pending = true }

-- The keys of the map that a loop `m[id] = struct{}{}` makes.
unfoldable pub id_set : List Int64 → List Int64 → List Int64
id_set [] acc = acc
id_set (id ∷ ids) acc = id_set ids (if member id acc then acc else acc ++ id ∷ [])

-- The loop of getSelectedServerIDs.
unfoldable pub select_ids : (HcloudServer → Bool) → List HcloudServer → List Int64
select_ids matches [] = []
select_ids matches (server ∷ servers) =
    let rest = select_ids matches servers in
    if is_set server.status.server_id && matches server
    then server.status.server_id ∷ rest
    else rest

module _ {S C K : Type 0} (r : HcloudLoadBalancerReconciler S C K) where
  open r use {
    hcloud_client, certificates, constants, get_certificate_object, list_servers, selector_error,
    selector_matches, api_errors, meta,
  }

  abbrev pub set_status :
      (HcloudLoadBalancerStatus → HcloudLoadBalancerStatus)
      → Action (LoadBalancerScope S C K) (Unit {0})
  set_status f s = (ok tt, record s { object = record (s.object) { status = f s.object.status } })

  -- (*HCloudLoadBalancerReconciler).setCondition, on the status
  abbrev pub set_condition :
      String → ConditionStatus → String → Text → HcloudLoadBalancerStatus → HcloudLoadBalancerStatus
  set_condition type status reason message s = record s {
    conditions =
        meta.set_status_condition s.conditions
          (record { type = type; status = status; reason = reason; message = message });
  }

  abbrev pub set_ready :
      ConditionStatus → String → String → Action (LoadBalancerScope S C K) (Unit {0})
  set_ready status reason message =
      set_status (set_condition condition_type_ready status reason (str message ∷ []))

  abbrev pub matches_all : Option S → HcloudServer → Bool
  matches_all none server = true
  matches_all (some selector) server = selector_matches selector server.metadata.labels

  unfoldable pub list_selected : Option S → Action (LoadBalancerScope S C K) (List Int64)
  list_selected selector = do
    servers ← within (str "list HCloudServer resources" ∷ []) (in_cluster (list_servers selector))
    pure (sort_by lt_int (select_ids (matches_all selector) servers))

  abbrev pub list_unless : Option Fault → Option S → Action (LoadBalancerScope S C K) (List Int64)
  list_unless none selector = list_selected selector
  list_unless (some e) selector = raise (wrap (str "invalid serverSelector" ∷ []) e)

  unfoldable pub get_selected_server_ids : Option S → Action (LoadBalancerScope S C K) (List Int64)
  get_selected_server_ids none = list_selected none
  get_selected_server_ids (some selector) = list_unless (selector_error selector) (some selector)

  -- What Hetzner answers about a certificate that has an ID.
  abbrev pub accept_certificate :
      Int64 → ResolvedCertificates → Option CertificateInfo → ResolvedCertificates
  accept_certificate id acc none = wait_certificate acc
  accept_certificate id acc (some info) =
      if not (certificate_ready constants info)
      then wait_certificate acc
      else record acc { ids = acc.ids ++ id ∷ [] }

  unfoldable pub certificate_unread :
      String → ResolvedCertificates → Fault → Action (LoadBalancerScope S C K) ResolvedCertificates
  certificate_unread name acc e =
      if api_errors.is_not_found e
      then pure (wait_certificate acc)
      else raise (wrap (str "get referenced HCloudCertificate " ∷ quoted name ∷ []) e)

  unfoldable pub certificate_read :
      ResolvedCertificates
      → HcloudCertificate
      → Action (LoadBalancerScope S C K) ResolvedCertificates
  certificate_read acc cert =
      if not (is_set cert.status.certificate_id) then pure (wait_certificate acc) else (do
        info ←
            within (str "fetch Hetzner certificate " ∷ num cert.status.certificate_id ∷ [])
              (in_cloud (certificates.get_certificate cert.status.certificate_id))
        pure (accept_certificate cert.status.certificate_id acc info))

  unfoldable pub resolve_certificate :
      String → ResolvedCertificates → Action (LoadBalancerScope S C K) ResolvedCertificates
  resolve_certificate name acc =
      if name == ""
      then pure acc
      else attempt (certificate_unread name acc) (certificate_read acc)
          (in_cluster (get_certificate_object name))

  -- The loop of resolveCertificateIDs.
  unfoldable pub resolve_certificate_ids :
      List String → ResolvedCertificates → Action (LoadBalancerScope S C K) ResolvedCertificates
  resolve_certificate_ids [] acc = pure acc
  resolve_certificate_ids (name ∷ names) acc = do
    acc' ← resolve_certificate name acc
    resolve_certificate_ids names acc'

  unfoldable pub services_from_spec :
      List HcloudLoadBalancerServiceSpec
      → ResolvedServices
      → Action (LoadBalancerScope S C K) ResolvedServices
  services_from_spec [] acc = pure acc
  services_from_spec (spec ∷ specs) acc = do
    found ← resolve_certificate_ids spec.certificate_refs (record { ids = []; pending = false })
    services_from_spec specs (record {
      services = acc.services ++ service_info spec found.ids ∷ [];
      pending = acc.pending || found.pending;
    })

  unfoldable pub load_balancer_services_from_spec :
      List HcloudLoadBalancerServiceSpec → Action (LoadBalancerScope S C K) ResolvedServices
  load_balancer_services_from_spec specs =
      services_from_spec specs (record { services = []; pending = false })

  unfoldable pub fetch_by_id : Action (LoadBalancerScope S C K) (Option LoadBalancerInfo)
  fetch_by_id = look λ o.
      if is_set o.status.load_balancer_id
      then within (str "fetch load balancer by ID" ∷ [])
          (in_cloud (hcloud_client.get_load_balancer o.status.load_balancer_id))
      else pure none

  unfoldable pub fetch_by_name :
      Option LoadBalancerInfo → Action (LoadBalancerScope S C K) (Option LoadBalancerInfo)
  fetch_by_name none = look λ o.
      within (str "fetch load balancer by name" ∷ [])
        (in_cloud (hcloud_client.get_load_balancer_by_name o.metadata.name))
  fetch_by_name (some lb) = pure (some lb)

  unfoldable pub create_missing :
      Option LoadBalancerInfo → Action (LoadBalancerScope S C K) LoadBalancerInfo
  create_missing none = look λ o.
      within (str "create load balancer" ∷ [])
        (in_cloud (hcloud_client.create_load_balancer (create_opts o)))
  create_missing (some lb) = pure lb

  -- The two loops over the targets.
  unfoldable pub attach_selected :
      Int64 → List Int64 → List Int64 → Action (LoadBalancerScope S C K) (Unit {0})
  attach_selected lb_id current [] = pure tt
  attach_selected lb_id current (id ∷ ids) = do
    if member id current
        then pure tt
        else within (str "attach server " ∷ num id ∷ str " to load balancer " ∷ num lb_id ∷ [])
            (in_cloud (hcloud_client.attach_server_to_load_balancer lb_id id))
    attach_selected lb_id current ids

  unfoldable pub detach_unselected :
      Int64 → List Int64 → List Int64 → Action (LoadBalancerScope S C K) (Unit {0})
  detach_unselected lb_id selected [] = pure tt
  detach_unselected lb_id selected (id ∷ ids) = do
    if member id selected
        then pure tt
        else within (str "detach server " ∷ num id ∷ str " from load balancer " ∷ num lb_id ∷ [])
            (in_cloud (hcloud_client.detach_server_from_load_balancer lb_id id))
    detach_unselected lb_id selected ids

  abbrev pub refreshed :
      Int64 → Option LoadBalancerInfo → Action (LoadBalancerScope S C K) LoadBalancerInfo
  refreshed id none =
      raise (fail (str "load balancer " ∷ num id ∷ str " disappeared after reconcile" ∷ []))
  refreshed id (some lb) = pure lb

  unfoldable pub finish_load_balancer :
      LoadBalancerInfo → Action (LoadBalancerScope S C K) (Unit {0})
  finish_load_balancer lb = do
    set_status (λ st. record st {
      load_balancer_id = lb.id;
      public_ipv4 = lb.public_ipv4;
      public_ipv6 = lb.public_ipv6;
      attached_server_ids = sort_by lt_int lb.targets;
    })
    set_ready condition_true "LoadBalancerReady"
        "Load balancer is provisioned and targets are in sync"

  -- From SyncLoadBalancerServices on.
  unfoldable pub publish_services :
      Int64 → List LoadBalancerServiceInfo → Action (LoadBalancerScope S C K) (Unit {0})
  publish_services id services = do
    within (str "sync load balancer services" ∷ [])
        (in_cloud (hcloud_client.sync_load_balancer_services id services))
    answer ←
        within (str "refresh load balancer" ∷ []) (in_cloud (hcloud_client.get_load_balancer id))
    lb ← refreshed id answer
    finish_load_balancer lb

  -- From the comparison of the targets on.
  unfoldable pub settle_load_balancer :
      List Int64
      → List LoadBalancerServiceInfo
      → LoadBalancerInfo
      → Action (LoadBalancerScope S C K) (Unit {0})
  settle_load_balancer selected services existing = do
    attach_selected existing.id (id_set existing.targets []) (id_set selected [])
    detach_unselected existing.id (id_set selected []) (id_set existing.targets [])
    publish_services existing.id services

  unfoldable pub reconcile_load_balancer_with_services :
      List Int64 → List LoadBalancerServiceInfo → Action (LoadBalancerScope S C K) (Unit {0})
  reconcile_load_balancer_with_services selected services = do
    by_id ← fetch_by_id
    found ← fetch_by_name by_id
    existing ← create_missing found
    settle_load_balancer selected services existing

  unfoldable pub reconcile_resolved :
      List Int64 → ResolvedServices → Action (LoadBalancerScope S C K) (Unit {0})
  reconcile_resolved selected desired =
      if desired.pending
      then set_ready condition_false "CertificatePending"
          "Waiting for referenced HCloudCertificate resources"
      else reconcile_load_balancer_with_services selected desired.services

  unfoldable pub reconcile_load_balancer : List Int64 → Action (LoadBalancerScope S C K) (Unit {0})
  reconcile_load_balancer selected = do
    desired ← look λ o. load_balancer_services_from_spec o.spec.services
    reconcile_resolved selected desired

  unfoldable pub reconcile : Action (LoadBalancerScope S C K) CtrlResult
  reconcile = do
    selected ← look λ o. get_selected_server_ids o.spec.server_selector
    reconcile_load_balancer selected
    pure (record { requeue = false; requeue_after = requeue_delay })

  unfoldable pub delete_hcloud_load_balancer : Action (LoadBalancerScope S C K) (Unit {0})
  delete_hcloud_load_balancer = look λ o.
      if not (is_set o.status.load_balancer_id)
      then pure tt
      else in_cloud (hcloud_client.delete_load_balancer o.status.load_balancer_id)

  -- HCloudLoadBalancerReconciler as the domain logic of the shared loop.
  abbrev pub load_balancer_resource :
      HcloudLoadBalancer S → Resource (World C K) (HcloudLoadBalancer S)
  load_balancer_resource empty = record {
    new_object = empty;
    finalizer_name = hcloud_load_balancer_finalizer;
    kind = "HCloudLoadBalancer";
    reconcile = reconcile;
    delete = delete_hcloud_load_balancer;
  }
