-- ===== src/Interpreter.antt =====
-- tsrkit_pvm/interpreter: memory, programs, the instruction tables, and the main loop.
pub mod Memory
pub mod Program
pub mod Pvm
