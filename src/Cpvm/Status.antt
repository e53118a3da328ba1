-- ===== src/Cpvm/Status.antt =====
-- tsrkit_pvm/cpvm/cy_status.pxd and cy_status.pyx: the codes of a status.
use tsrkit_pvm.Prelude.{ℕ, Exn, pvm_exit}

abbrev pub pvm_halt : ℕ
pvm_halt = 0

abbrev pub pvm_panic : ℕ
pvm_panic = 1

abbrev pub pvm_page_fault : ℕ
pvm_page_fault = 2

abbrev pub pvm_host : ℕ
pvm_host = 3

abbrev pub pvm_out_of_gas : ℕ
pvm_out_of_gas = 4

abbrev pub pvm_continue : ℕ
pvm_continue = 5

pub record CyStatus : Type 0 where
  pub code : ℕ
  pub register : ℕ

-- `PvmExit(code)`; `next_pc` and `gas_cost` are set by the block that catches it.
abbrev pub exit_with : ℕ → Exn
exit_with code = pvm_exit code 0
