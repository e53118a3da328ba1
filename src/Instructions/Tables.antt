-- ===== src/Instructions/Tables.antt =====
-- The thirteen tables of tsrkit_pvm/interpreter/instructions/tables, one module each, named as the
-- source's files. A method is a function of its table object and operands; `table` lists the
-- dictionary's entries in the source's order.
pub mod WoArgs
pub mod IImm
pub mod IRegIEwimm
pub mod IiImm
pub mod IOffset
pub mod IRegIImm
pub mod IRegIiImm
pub mod IRegIImmIOffset
pub mod IiReg
pub mod IiRegIImm
pub mod IiRegIOffset
pub mod IiRegIiImm
pub mod IiiReg
