-- ===== src/Risk.antt =====
-- The scores of src/risk: the fusion of the signals of all analyses, and the policies on a score.
pub mod Fusion
pub mod Scoring
pub mod Legacy
pub mod Policy
pub mod Assessment
