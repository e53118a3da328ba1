-- ===== src/Common.antt =====
-- tsrkit_pvm/common: constants, statuses, and the number helpers of the instructions.
pub mod Constants
pub mod Status
pub mod Utils
pub mod Bits
pub mod Signs
