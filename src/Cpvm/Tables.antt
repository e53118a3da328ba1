-- ===== src/Cpvm/Tables.antt =====
-- The thirteen tables of tsrkit_pvm/cpvm/instructions/tables, one module each, named as the source's
-- files. A method is a function of the program, its counter and operands; `table` lists the
-- dictionary's entries in the source's order.
pub mod WoArgs
pub mod IImm
pub mod IOffset
pub mod IRegIEwimm
pub mod IRegIImm
pub mod IRegIImmIOffset
pub mod IRegIiImm
pub mod IiImm
pub mod IiReg
pub mod IiRegIImm
pub mod IiRegIOffset
pub mod IiRegIiImm
pub mod IiiReg
