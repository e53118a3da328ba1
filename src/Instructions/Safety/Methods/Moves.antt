-- ===== src/Instructions/Safety/Methods/Moves.antt =====
-- ii_reg.py: the safety of the methods.
use tsrkit_pvm.Prelude.{
  ℕ, ◌/◌, ◌%◌, ◌^◌, ◌<◌, false, List, [], ◌∷◌, some, All, if-elim, if◌then◌else◌, ltb, M, Ensures,
  pure, raise, ◌>>◌, ◌≡◌, arith, overflow_error,
}
use tsrkit_pvm.Common.Constants.{Accessibility}
use tsrkit_pvm.Interpreter.Memory.Access.{alter_accessibility-IsCoherent, heap_break-IsCoherent}
use tsrkit_pvm.Instructions.Machine.{
  Table, Machine, OpCode, Exec, set_reg, next, bytes_at, on_memory,
}
use tsrkit_pvm.Instructions.Safety.Rules.{
  IsSafe, IsSafeOp, clamp_12-lt, then-IsSafe, pure-IsSafe, raise-IsSafe, reg-IsSafe, set_reg-IsSafe,
  next-IsSafe,
}
use tsrkit_pvm.Instructions.Tables.IiReg.{
  Props, stores, move_reg, grow_heap, sbrk, reverse_bytes, decode, get_props, table,
}

abbrev Fits : Props → Type 0
Fits (rd, ra) = (rd < 13) × (ra < 13)

decode-Fits : (xs : List ℕ) (props : Props) → decode xs ≡ some props → Fits props
unfolding decode
decode-Fits [] props e = cc
decode-Fits (x ∷ xs) props e = ground (arith, clamp_12-lt (x % 16), clamp_12-lt (x / 16))

fits : (t : Table) (props : Props) → get_props t ≡ some props → Fits props
unfolding get_props
fits t props e = decode-Fits (bytes_at t 1 1) props e

stores-IsSafe : (f : ℕ → ℕ) (t : Table) (props : Props) → Fits props → IsSafe (stores f t props)
unfolding stores
stores-IsSafe f t (rd, ra) h = reg-IsSafe ra h.1 λ a. set_reg-IsSafe rd (f a) h.0 (next-IsSafe t)

move_reg-IsSafe : (t : Table) (props : Props) → Fits props → IsSafe (move_reg t props)
unfolding move_reg
move_reg-IsSafe t (rd, ra) h = reg-IsSafe ra h.1 λ a. set_reg-IsSafe rd a h.0 (next-IsSafe t)

grow_heap-IsSafe : (req : ℕ) → IsSafe (on_memory (grow_heap req))
unfolding grow_heap
grow_heap-IsSafe req m h =
    let c =
      alter_accessibility-IsCoherent m.memory.heap_break req Accessibility.write m.memory
        h.coherent in
    Ensures.returns (record { thirteen = h.thirteen; coherent = heap_break-IsCoherent _ _ c })

sbrk-IsSafe : (t : Table) (props : Props) → Fits props → IsSafe (sbrk t props)
unfolding sbrk
sbrk-IsSafe t (rd, ra) h = reg-IsSafe ra h.1 λ req.
    then-IsSafe (on_memory (grow_heap req)) (λ heap_break. set_reg rd heap_break >> next t)
      (grow_heap-IsSafe req) λ heap_break. set_reg-IsSafe rd heap_break h.0 (next-IsSafe t)

reverse_bytes-IsSafe : (t : Table) (props : Props) → Fits props → IsSafe (reverse_bytes t props)
unfolding reverse_bytes
reverse_bytes-IsSafe t (rd, ra) h = reg-IsSafe ra h.1 λ a.
    then-IsSafe (if ltb a (2 ^ 64) then pure tt else raise overflow_error) _
      (if-elim (λ (x : M Machine (Unit {0})). IsSafe x) (ltb a (2 ^ 64)) (λ _. pure-IsSafe tt)
        (λ _. raise-IsSafe overflow_error tt))
      (λ _. set_reg-IsSafe rd _ h.0 (next-IsSafe t))

abbrev IsGood : OpCode Props → Type 0
IsGood = IsSafeOp get_props

plain : (f : ℕ → ℕ) → IsGood (record { fn = stores f; gas = 1; is_terminating = false })
plain f t props e = stores-IsSafe f t props (fits t props e)

at_fits :
    (fn : Table → Props → Exec)
    → ((t : Table) (props : Props) → Fits props → IsSafe (fn t props))
    → IsGood (record { fn = fn; gas = 1; is_terminating = false })
at_fits fn h t props e = h t props (fits t props e)

pub table-IsSafe : All (λ e. IsGood e.1) table
unfolding table
table-IsSafe = search (
  plain,
  at_fits move_reg move_reg-IsSafe,
  at_fits sbrk sbrk-IsSafe,
  at_fits reverse_bytes reverse_bytes-IsSafe,
)
