-- ===== src/Firewall.antt =====
-- internal/controller/hcloudfirewall_controller.go: the controller of HCloudFirewall objects.
pub mod Rules
pub mod Targets
pub mod Controller
pub mod Settled
pub mod Provisioning
pub mod Accepting
pub mod Resolving
pub mod Convergence
mod Examples
