-- ===== src/Kube.antt =====
-- What the controllers use of Kubernetes: the status conditions of an object, its finalizers, and
-- the client of the API server. None of it is code of this repository, so it enters as records of
-- operations; those of `Meta` carry the laws that k8s.io/apimachinery and controller-runtime document.
pub mod Condition
pub mod Client
pub mod Concrete
pub mod Cluster
