-- ===== src/Common/Constants.antt =====
-- tsrkit_pvm/common/constants.py and tsrkit_pvm/common/types.py.
use tsrkit_pvm.Prelude.{ℕ, ◌^◌}

abbrev pub pvm_addr_alignment : ℕ
pvm_addr_alignment = 2

abbrev pub pvm_init_data_size : ℕ
pvm_init_data_size = 2 ^ 24

abbrev pub pvm_memory_page_size : ℕ
pvm_memory_page_size = 2 ^ 12

abbrev pub pvm_init_zone_size : ℕ
pvm_init_zone_size = 2 ^ 16

abbrev pub register_count : ℕ
register_count = 13

pub data Accessibility : Type 0 where
  read write null : Accessibility
