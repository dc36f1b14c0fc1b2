-- ===== src/Argocd.antt =====
-- internal/controller/argocd_controller.go: the installation of Argo CD by helm.
pub mod Types
pub mod Reconcile
pub mod Outcomes
pub mod Calls
pub mod Content
pub mod Apart
