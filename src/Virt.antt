-- ===== src/Virt.antt =====
-- internal/controller/virt_controller.go: the virtualisation feature, which is KubeVirt, its
-- Containerized Data Importer (CDI) and the KubeVirt Manager.
pub mod Types
pub mod Setup
pub mod Kvm
pub mod Emulation
pub mod Installed
pub mod Cdi
pub mod Manager
pub mod Install
pub mod Reconcile
