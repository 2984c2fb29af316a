-- ===== src/Hcloud.antt =====
-- internal/hcloud/client.go: the types that the controllers and the clients exchange, and the
-- interface of the client, a record for each kind of resource.
pub mod Types
pub mod Api
