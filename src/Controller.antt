-- ===== src/Controller.antt =====
-- internal/controller: the controllers of the operator.
pub mod Annotations
pub mod FileToCluster
pub mod ClusterToFile
pub mod ConfigSyncer
pub mod ClusterConfigReconciler
pub mod Values
pub mod EventFilter
