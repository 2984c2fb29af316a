-- ===== src/Fake.antt =====
-- internal/hcloud/fake_client.go: the in-memory implementation of the client interface. Each call
-- holds the mutex from its first line to its last, so it is one step; a map is walked in the order
-- of its list, where Go's order is free, and the theorems that depend on it assume distinct names.
pub mod State
pub mod Servers
pub mod Volumes
pub mod Networks
pub mod PlacementGroups
pub mod Firewalls
pub mod Certificates
pub mod LoadBalancers
pub mod FloatingIps
pub mod PrimaryIps
