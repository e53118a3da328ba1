-- ===== src/Common/Status.antt =====
-- tsrkit_pvm/common/status.py. In the source `HOST(r)` and `PAGE_FAULT(r)` store `r` in the one
-- enum member and return that member; here the value is part of the status.
use tsrkit_pvm.Prelude.{ℕ}

pub data ExecutionStatus : Type 0 where
  halt panic out_of_gas continue : ExecutionStatus
  page_fault : ℕ → ExecutionStatus
  host : ℕ → ExecutionStatus
