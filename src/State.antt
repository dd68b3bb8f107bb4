-- ===== src/State.antt =====
-- Module references and the files of module states: hyops/runtime/refs.py and
-- hyops/runtime/module_state.py.
pub mod Refs
pub mod Store
pub mod Inputs
mod Examples
