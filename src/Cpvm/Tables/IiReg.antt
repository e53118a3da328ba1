-- ===== src/Cpvm/Tables/IiReg.antt =====
-- tsrkit_pvm/cpvm/instructions/tables/ii_reg.pyx: `CyInstructionsWArgs2Reg`.
pub mod Values
use tsrkit_pvm.Prelude.{ℕ, ◌+◌, ◌/◌, ◌%◌, false, List, [], ◌∷◌, Outcome, ◌+ℤ◌}
use tsrkit_pvm.Common.Constants.{Accessibility}
use tsrkit_pvm.Cpvm.Words.{as_signed, as_unsigned}
use tsrkit_pvm.Cpvm.Utils.{clamp_12}
use tsrkit_pvm.Cpvm.Memory
use tsrkit_pvm.Cpvm.Program.{no_branch}
use tsrkit_pvm.Cpvm.Machine.{CyTableEntry, GetProps, InstrFn, no_props, at, put, zeta_at}
use Values

unfoldable pub get_props : GetProps
unfolding clamp_12
get_props counter p skip_index =
    let byte_val = zeta_at p (counter + 1) in
    record no_props { ra = clamp_12 (byte_val / 16); rd = clamp_12 (byte_val % 16) }

-- The body that the methods share: registers[rd] = f(registers[ra]).
unfoldable pub stores : (ℕ → ℕ) → InstrFn
unfolding put
stores f p counter props s = Outcome.done no_branch (put props.rd (f (at s props.ra)) s)

-- The break is an `int`, the request an `int64_t`, and the arguments of `_alter_accessibility_c` are
-- of type `uint32_t`.
unfoldable pub sbrk : InstrFn
unfolding put Memory.alter_accessibility as_signed as_unsigned
sbrk p counter props s =
    let req = as_signed 64 (at s props.ra) in
    let old = s.memory.heap_break in
    let memory =
      Memory.alter_accessibility (as_unsigned 32 old) (as_unsigned 32 req) Accessibility.write
        s.memory in
    let grown = record memory { heap_break = as_signed 32 (as_unsigned 32 (old +ℤ req)) } in
    Outcome.done no_branch (record (put props.rd (as_unsigned 64 old) s) { memory = grown })

abbrev entry : InstrFn → CyTableEntry
entry fn = record { fn = fn; gas_cost = 1; is_terminating = false }

unfoldable pub table : List (ℕ × CyTableEntry)
table =
    (100, entry (stores (λ a. a)))
    ∷ (101, entry sbrk)
    ∷ (102, entry (stores (Values.count_set_bits 64)))
    ∷ (103, entry (stores (Values.count_set_bits 32)))
    ∷ (104, entry (stores (Values.leading_zero_bits 64)))
    ∷ (105, entry (stores (Values.leading_zero_bits 32)))
    ∷ (106, entry (stores (Values.trailing_zero_bits 64)))
    ∷ (107, entry (stores (Values.trailing_zero_bits 32)))
    ∷ (108, entry (stores (Values.sign_extend 8)))
    ∷ (109, entry (stores (Values.sign_extend 16)))
    ∷ (110, entry (stores Values.zero_extend_16))
    ∷ (111, entry (stores Values.reverse_bytes))
    ∷ []
