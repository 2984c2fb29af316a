-- ===== src/Certificate.antt =====
-- internal/controller/hcloudcertificate_controller.go
pub mod Controller
pub mod Reporting
pub mod Examples
