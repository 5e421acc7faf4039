-- ===== src/Pf.antt =====
-- The particle filter localization core, `PFLocalizationCore`.
pub mod Library
pub mod Parameters
pub mod Yaml
pub mod FilterOptions
pub mod Loading
pub mod State
pub mod WellFormed
pub mod Queue
pub mod Guess
pub mod Initialize
pub mod Relocalization
pub mod Running
pub mod Scene
pub mod Estimate
pub mod Window
pub mod Api
pub mod Defaults
