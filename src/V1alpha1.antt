-- ===== src/V1alpha1.antt =====
-- api/v1alpha1: the custom resources, less their type metadata and the fields of ObjectMeta that the
-- operator does not touch. A pointer to a LocalObjectReference is an Option of its name.
pub mod Server
pub mod Network
pub mod PlacementGroup
pub mod Firewall
pub mod Volume
pub mod Certificate
pub mod LoadBalancer
pub mod FloatingIp
pub mod PrimaryIp
