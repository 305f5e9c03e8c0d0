-- ===== src/Feedback.antt =====
-- What is learnt from analysts: src/feedback.
pub mod Models
pub mod Convergence
pub mod Tuner
pub mod Service
