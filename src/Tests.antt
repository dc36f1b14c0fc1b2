-- ===== src/Tests.antt =====
-- Runs of the program in a world in memory.
mod Memory
mod Samples
mod Config
mod Virt
mod Controller
mod Downloader
mod JobRunner
mod Argocd
mod System
mod FeatureScripts
