-- ===== src/Examples.antt =====
-- The theorems at concrete inputs.
pub mod UsernameExamples
pub mod TokenExamples
pub mod StoreExamples
pub mod ServerExamples
pub mod UserExamples
pub mod DeviceExamples
pub mod ProcessExamples
