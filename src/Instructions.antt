-- ===== src/Instructions.antt =====
-- tsrkit_pvm/interpreter/instructions: what an instruction sees and does, the tables, and dispatch.
pub mod Machine
pub mod Tables
pub mod InstMap
pub mod Safety
