-- ===== src/Instructions/Safety.antt =====
-- tsrkit_pvm/interpreter/instructions: the invariant of the registers and the memory.
pub mod Rules
pub mod Methods
pub mod Entries
pub mod Blocks
pub mod Start
