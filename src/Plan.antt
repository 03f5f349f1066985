-- ===== src/Plan.antt =====
-- plan/: from Terraform's JSON documents to the engine's own change model.
pub mod Normalizer
pub mod StateShim
pub mod Sanitizer
pub mod Detector
