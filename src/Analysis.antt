-- ===== src/Analysis.antt =====
-- The static analysis of ida_plugin/v_variable_recovery.py: which local variables have a known place
-- or value at an address. What IDA and Hex-Rays give is a parameter, as records of their answers.
pub mod Claims
pub mod Microcode
pub mod Points
pub mod Native
pub mod Graph
pub mod Variables
pub mod Candidate
pub mod Whole
pub mod Samples
mod Examples
