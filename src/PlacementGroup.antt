-- ===== src/PlacementGroup.antt =====
-- internal/controller/hcloudplacementgroup_controller.go: the controller of HCloudPlacementGroup
-- objects.
pub mod Controller
pub mod Settled
mod Examples
