-- ===== src/LoadBalancer.antt =====
-- internal/controller/hcloudloadbalancer_controller.go
pub mod Controller
pub mod Targets
pub mod Settling
pub mod Provisioning
pub mod Examples
