-- ===== src/FeatureScripts.antt =====
-- internal/controller/feature_script_runner.go: jobs that run the setup script of a feature.
pub mod FilePaths
pub mod Scripts
pub mod Runner
pub mod Environment
pub mod Ended
