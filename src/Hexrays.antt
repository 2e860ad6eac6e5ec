-- ===== src/Hexrays.antt =====
-- ida_plugin/hexrays_variables.py: the names and the arguments of the variables of a decompiled
-- function.
pub mod Names
pub mod Arguments
