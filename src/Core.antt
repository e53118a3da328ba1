-- ===== src/Core.antt =====
-- tsrkit_pvm/core: the program blob, the bytecode container, and the initial registers.
pub mod ProgramBase
pub mod Code
