-- ===== src/Server.antt =====
-- internal/controller/hcloudserver_controller.go: the controller of HCloudServer objects.
pub mod State
pub mod Status
pub mod Network
pub mod Resize
pub mod Controller
pub mod Preservation
pub mod Waiting
pub mod Tracking
pub mod Names
pub mod FakeNames
pub mod Convergence
mod Examples
