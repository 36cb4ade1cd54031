-- ===== src/Kube.antt =====
-- internal/kube: the part of the Kubernetes backend that places the listeners of custom domains.
pub mod Shards
pub mod Placement
