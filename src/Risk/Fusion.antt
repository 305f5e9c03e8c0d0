-- ===== src/Risk/Fusion.antt =====
-- `MultimodalSignalFuser` of src/risk/multimodal_fuser.py.
pub mod Models
pub mod Signals
pub mod Vector
pub mod Valid
mod Tests
