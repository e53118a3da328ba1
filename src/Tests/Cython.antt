-- ===== src/Tests/Cython.antt =====
-- The Cython port on concrete inputs, and what the statements on it say of them.
use tsrkit_pvm.Prelude.{
  ℕ, zero, suc, ◌^◌, ◌<◌, true, false, [], ◌∷◌, All, none, some, get_elem?, length-replicate,
  if◌then◌else◌, ◌==◌, pos, negsuc, Outcome, ◌≡◌, refl, arith, ◌-◌, replicate,
}
use mathlib.Core.Option
use tsrkit_pvm.Common.Constants.{Accessibility}
use tsrkit_pvm.Common.Utils
use tsrkit_pvm.Interpreter.Memory.Flat.{read_flat}
use tsrkit_pvm.Interpreter.Program
use tsrkit_pvm.Interpreter.Program.{Program}
use tsrkit_pvm.Interpreter.Program.Init as Py
use tsrkit_pvm.Instructions.InstMap
use tsrkit_pvm.Instructions.Tables
use tsrkit_pvm.Cpvm.Words.{uint32}
use tsrkit_pvm.Cpvm.Memory.{CyMemory, read, write, has_access, alter_accessibility}
use tsrkit_pvm.Cpvm.Memory.Flat.{IsPaged, as_memory, outcome_of, read-FlatBytes}
use tsrkit_pvm.Cpvm.Memory.Writes.{WritesAll, write-WritesAll}
use tsrkit_pvm.Cpvm.Memory.Rights.{mode_of, touches, grants, alter_accessibility-has_access}
use tsrkit_pvm.Cpvm.Memory.Init.{blank, sync_bitsets_from_sets, init, load}
use tsrkit_pvm.Cpvm.Memory.Reachable.{HasPages, Reachable, Reachable-HasPages}
use tsrkit_pvm.Cpvm.Program as Cy
use tsrkit_pvm.Cpvm.Program.Init as CyInit
use tsrkit_pvm.Cpvm.Program.Init.Agree.{HasOpcodes, as_cy, or_crash, init-init}
use tsrkit_pvm.Cpvm.Program.Jumps.{as_exit, djump-djump, branch-branch}
use tsrkit_pvm.Cpvm.Mapper
use tsrkit_pvm.Cpvm.Mapper.Entries.{entry_props, handler_props, dispatch-dispatch}
use tsrkit_pvm.Cpvm.Pvm
use tsrkit_pvm.Cpvm.Pvm.Ends.{Ends, execute-Ends}
use tsrkit_pvm.Cpvm.Utils.{smod}
use tsrkit_pvm.Cpvm.Utils.Remainder.{smod-smod}
use tsrkit_pvm.Cpvm.Tables.IiiReg.Operations.{operations, operations-Agree}
use tsrkit_pvm.Cpvm.Tables.IiRegIImm.Operations as Imm
use tsrkit_pvm.Cpvm.Tables.IiiReg.Laws.{Laws, operations-Laws}

-- Page 16 may be written.
abbrev one_page : CyMemory
one_page = record {
  pages = λ _. none;
  r_pages = [];
  w_pages = [];
  r_bitset = λ _. 0;
  w_bitset = λ word_idx. if word_idx == 0 then 2 ^ 16 else 0;
  heap_break = pos 0;
}

one_page-IsPaged : IsPaged one_page
one_page-IsPaged pg = length-replicate {A = ℕ} 4096 0

read-FlatBytes_example :
    read 69630 4 one_page
    ≡ outcome_of (uint32 69630) one_page (read_flat (as_memory one_page) 4 (uint32 69630))
read-FlatBytes_example = read-FlatBytes 69630 4 one_page one_page-IsPaged (omega arith)

write-WritesAll_example :
    WritesAll (uint32 69630) (7 ∷ 8 ∷ []) one_page (write 69630 (7 ∷ 8 ∷ []) one_page)
write-WritesAll_example = write-WritesAll 69630 (7 ∷ 8 ∷ []) one_page one_page-IsPaged (omega arith)

alter_accessibility-has_access_example :
    has_access (alter_accessibility 69630 4 Accessibility.read one_page) 17 (mode_of false) ≡ (
      if touches 69630 4 17
      then grants Accessibility.read false
      else has_access one_page 17 (mode_of false))
alter_accessibility-has_access_example =
    alter_accessibility-has_access 69630 4 17 one_page (omega arith) (omega arith)
      Accessibility.read false (omega arith)

-- The memory that the constructor makes, with page 16 to write to, once the right is taken back.
abbrev made_memory : CyMemory
made_memory = sync_bitsets_from_sets (blank [] (16 ∷ []) (pos 0))

made_memory-Reachable : Reachable made_memory
unfolding init load
made_memory-Reachable = Reachable.made [] [] (16 ∷ []) (pos 0) made_memory refl

Reachable-HasPages_example : HasPages (alter_accessibility 65536 4 Accessibility.null made_memory)
Reachable-HasPages_example =
    Reachable-HasPages (alter_accessibility 65536 4 Accessibility.null made_memory)
      (Reachable.altered 65536 4 Accessibility.null made_memory made_memory-Reachable)

-- A trap, and a jump table with the start of the block after it.
abbrev trap : Program
trap = record {
  z = 1;
  jump_table = 1 ∷ [];
  instruction_set = 0 ∷ [];
  offset_bitmask = true ∷ [];
  zeta = 0 ∷ [];
  extended_bitmask = true ∷ [];
  skip_cache = 0 ∷ [];
  basic_blocks = 0 ∷ 1 ∷ [];
}

trap_fits : (i t : ℕ) → get_elem? trap.jump_table i ≡ some t → t < 2 ^ 31
trap_fits zero t e = ground arith
trap_fits (suc i) t e = cc

djump-djump_example :
    Cy.djump {S = Unit {0}} (as_cy trap) 0 2 tt ≡ as_exit (Program.djump trap 0 2 tt)
djump-djump_example = djump-djump (as_cy trap) trap 0 2 tt refl refl trap_fits

branch-branch_example : Cy.branch {S = Unit {0}} (as_cy trap) 0 5 true tt ≡ (
    if true then as_exit (Program.branch trap 0 (pos 5) true tt) else Outcome.done Cy.no_branch tt)
branch-branch_example = branch-branch (as_cy trap) trap 0 5 true tt refl (omega arith)

zero_defined : Py.is_defined 0 ≡ true
unfolding InstMap.dispatch InstMap.lookup InstMap.all_tables Tables.WoArgs.table Tables.IImm.table
    Tables.IRegIEwimm.table Tables.IiImm.table Tables.IOffset.table Tables.IRegIImm.table
    Tables.IRegIiImm.table Tables.IRegIImmIOffset.table Tables.IiReg.table Tables.IiRegIImm.table
    Tables.IiRegIOffset.table Tables.IiRegIiImm.table Tables.IiiReg.table
zero_defined = refl

trap-HasOpcodes : HasOpcodes (true ∷ []) (0 ∷ [])
trap-HasOpcodes zero zero e f = (omega arith, zero_defined)
trap-HasOpcodes zero (suc opcode) e f = cc
trap-HasOpcodes (suc i) opcode e f = cc

init-init_example :
    CyInit.init 1 (1 ∷ []) (0 ∷ []) (true ∷ []) tt
    ≡ or_crash (Option.map as_cy (Py.init 1 (1 ∷ []) (0 ∷ []) (true ∷ [])))
init-init_example = init-init 1 (1 ∷ []) (0 ∷ []) (true ∷ []) trap-HasOpcodes

dispatch-dispatch_example :
    Option.map entry_props (Mapper.dispatch 190) ≡ Option.map handler_props (InstMap.dispatch 190)
dispatch-dispatch_example = dispatch-dispatch 190 (omega arith)

execute-Ends_example :
    Ends (
      Pvm.execute (as_cy trap) 0 (pos 3) (record { registers = replicate 13 1; memory = one_page }))
execute-Ends_example =
    execute-Ends (as_cy trap) 0 (pos 3) (record { registers = replicate 13 1; memory = one_page })
      refl

smod-smod_example : smod (negsuc 6) (pos 3) ≡ Utils.smod (negsuc 6) (pos 3)
smod-smod_example = smod-smod (negsuc 6) (pos 3) (omega arith) (omega arith)

operations-Agree_example : All (λ p. p.0 (2 ^ 64 - 7) 3 ≡ p.1 (2 ^ 64 - 7) 3) operations
operations-Agree_example = operations-Agree (2 ^ 64 - 7) 3 (omega arith) (omega arith)

operations-Laws_example : Laws (2 ^ 64 - 7) 3
operations-Laws_example = operations-Laws (2 ^ 64 - 7) 3 (omega arith) (omega arith)

operations_imm-Agree_example : All (λ p. p.0 (2 ^ 64 - 7) 3 ≡ p.1 (2 ^ 64 - 7) 3) Imm.operations
operations_imm-Agree_example = Imm.operations_imm-Agree (2 ^ 64 - 7) 3 (omega arith) (omega arith)
