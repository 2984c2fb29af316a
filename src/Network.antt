-- ===== src/Network.antt =====
-- internal/controller/hcloudnetwork_controller.go: the controller of HCloudNetwork objects.
pub mod State
pub mod Controller
pub mod Subnets
pub mod Provisioning
mod Examples
