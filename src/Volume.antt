-- ===== src/Volume.antt =====
-- internal/controller/hcloudvolume_controller.go: the controller of HCloudVolume objects.
pub mod State
pub mod Controller
pub mod Settled
pub mod Provisioning
pub mod Creation
pub mod Deletion
pub mod Guarding
pub mod Pending
mod Examples
