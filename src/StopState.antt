-- ===== src/StopState.antt =====
-- The verified stop state of an environment: hyops/state/stop_state.py.
pub mod Readers
pub mod Manifest
pub mod Estimate
pub mod Evaluation
mod Examples
