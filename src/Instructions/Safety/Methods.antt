-- ===== src/Instructions/Safety/Methods.antt =====
-- tables/*.py: the safety of the methods, at the operands that `get_props` gives.
pub mod ThreeReg
pub mod OneReg
pub mod Moves
pub mod Immediates
pub mod Jumps
