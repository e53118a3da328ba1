-- ===== src/Cpvm.antt =====
-- tsrkit_pvm/cpvm: the interpreter as Cython code, on C integers.
pub mod Words
pub mod Utils
pub mod Status
pub mod Memory
pub mod Program
pub mod Machine
pub mod Tables
pub mod Mapper
pub mod Pvm
