-- ===== src/PrimaryIp.antt =====
-- internal/controller/hcloudprimaryip_controller.go
pub mod Controller
pub mod Settled
pub mod Provisioning
pub mod Agreement
pub mod Deletion
pub mod Examples
