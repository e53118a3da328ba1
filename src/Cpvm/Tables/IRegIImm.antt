-- ===== src/Cpvm/Tables/IRegIImm.antt =====
-- tsrkit_pvm/cpvm/instructions/tables/i_reg_i_imm.pyx: `CyInstructionsWArgs1Reg1Imm`.
use tsrkit_pvm.Prelude.{ℕ, ◌+◌, ◌-◌, ◌/◌, ◌%◌, ◌^◌, true, false, List, [], ◌∷◌, Outcome, ◌>>=◌}
use tsrkit_pvm.Instructions.Machine.{from_bytes, to_bytes}
use tsrkit_pvm.Cpvm.Words.{uint8, uint32, as_unsigned}
use tsrkit_pvm.Cpvm.Utils.{clamp_12, clamp_4, chi}
use tsrkit_pvm.Cpvm.Memory
use tsrkit_pvm.Cpvm.Program
use tsrkit_pvm.Cpvm.Program.{no_branch}
use tsrkit_pvm.Cpvm.Machine.{
  CyTableEntry, GetProps, InstrFn, no_props, at, put, on_memory, writes, zeta_at, immediate,
}

-- `max(0, skip_index - 1)` of a `uint32_t`: the difference wraps around, and 0 gives a length of 4.
unfoldable pub imm_length : ℕ → ℕ
unfolding clamp_4
imm_length skip_index = clamp_4 (uint8 (uint32 (skip_index + 2 ^ 32 - 1)))

unfoldable pub get_props : GetProps
unfolding imm_length clamp_12 immediate
get_props counter p skip_index = record no_props {
  vx = immediate p (counter + 2) (imm_length skip_index);
  ra = clamp_12 (zeta_at p (counter + 1) % 16);
}

unfoldable pub jump_ind : InstrFn
unfolding Program.djump
jump_ind p counter props s = Program.djump p counter (uint32 (at s props.ra + props.vx)) s

unfoldable pub load_imm : InstrFn
unfolding put
load_imm p counter props s = Outcome.done no_branch (put props.ra props.vx s)

-- `int.from_bytes(data, "little")` of a read of `bitsize` bits.
unfoldable pub load_u : ℕ → InstrFn
unfolding put Memory.read from_bytes
load_u bitsize p counter props = on_memory (Memory.read props.vx (bitsize / 8)) >>= λ bytes s.
    Outcome.done no_branch (put props.ra (from_bytes bytes) s)

unfoldable pub load_i : ℕ → InstrFn
unfolding put Memory.read from_bytes chi as_unsigned
load_i bitsize p counter props = on_memory (Memory.read props.vx (bitsize / 8)) >>= λ bytes s.
    Outcome.done no_branch (put props.ra (as_unsigned 64 (chi (from_bytes bytes) (bitsize / 8))) s)

unfoldable pub store_u : ℕ → InstrFn
unfolding writes to_bytes
store_u bitsize p counter props s =
    writes props.vx (to_bytes (at s props.ra % 2 ^ bitsize) (bitsize / 8)) s

abbrev entry : InstrFn → CyTableEntry
entry fn = record { fn = fn; gas_cost = 1; is_terminating = false }

unfoldable pub table : List (ℕ × CyTableEntry)
table =
    (50, record { fn = jump_ind; gas_cost = 1; is_terminating = true })
    ∷ (51, entry load_imm)
    ∷ (52, entry (load_u 8))
    ∷ (53, entry (load_i 8))
    ∷ (54, entry (load_u 16))
    ∷ (55, entry (load_i 16))
    ∷ (56, entry (load_u 32))
    ∷ (57, entry (load_i 32))
    ∷ (58, entry (load_u 64))
    ∷ (59, entry (store_u 8))
    ∷ (60, entry (store_u 16))
    ∷ (61, entry (store_u 32))
    ∷ (62, entry (store_u 64))
    ∷ []
