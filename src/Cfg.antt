-- ===== src/Cfg.antt =====
-- The graph searches of ida_plugin/v_variable_recovery.py.
mod Examples
pub mod Walk
pub mod Backward
pub mod Facts
pub mod Cycle
pub mod Reaching
pub mod Storage
pub mod Future
