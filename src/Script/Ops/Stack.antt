-- ===== src/Script/Ops/Stack.antt =====
-- "Stack ops", `OP_SIZE` and `OP_EQUAL` of `EvalScript`. Each first tests how deep the stack is.
use build_env_jenkins.Common.{
  ℕ, ◌+◌, Bytes, List, [], ◌∷◌, ◌++◌, Bool, true, false, Option, none, some, length, get_elem?,
  take, drop, ◌==◌, if◌then◌else◌, bytes_eq,
}
use build_env_jenkins.Common.Int.{ℤ, pos, negsuc}
use build_env_jenkins.Bignum.{get_vch, get_int}
use build_env_jenkins.Script.Opcode.{op_roll, op_equalverify}
use build_env_jenkins.Script.Cast.{cast_to_bool, cast_to_big_num}
use build_env_jenkins.Script.Machine.{Machine, Context, Step, Handler, fail, put, conclude}

unfoldable pub drop2 : List Bytes → Option (List Bytes)
drop2 (x2 ∷ x1 ∷ s) = some s
drop2 s = none

unfoldable pub dup2 : List Bytes → Option (List Bytes)
dup2 (x2 ∷ x1 ∷ s) = some (x2 ∷ x1 ∷ x2 ∷ x1 ∷ s)
dup2 s = none

unfoldable pub dup3 : List Bytes → Option (List Bytes)
dup3 (x3 ∷ x2 ∷ x1 ∷ s) = some (x3 ∷ x2 ∷ x1 ∷ x3 ∷ x2 ∷ x1 ∷ s)
dup3 s = none

unfoldable pub over2 : List Bytes → Option (List Bytes)
over2 (x4 ∷ x3 ∷ x2 ∷ x1 ∷ s) = some (x2 ∷ x1 ∷ x4 ∷ x3 ∷ x2 ∷ x1 ∷ s)
over2 s = none

unfoldable pub rot2 : List Bytes → Option (List Bytes)
rot2 (x6 ∷ x5 ∷ x4 ∷ x3 ∷ x2 ∷ x1 ∷ s) = some (x2 ∷ x1 ∷ x6 ∷ x5 ∷ x4 ∷ x3 ∷ s)
rot2 s = none

unfoldable pub swap2 : List Bytes → Option (List Bytes)
swap2 (x4 ∷ x3 ∷ x2 ∷ x1 ∷ s) = some (x2 ∷ x1 ∷ x4 ∷ x3 ∷ s)
swap2 s = none

unfoldable pub if_dup : List Bytes → Option (List Bytes)
if_dup (x ∷ s) = some (if cast_to_bool x then x ∷ x ∷ s else x ∷ s)
if_dup s = none

unfoldable pub drop1 : List Bytes → Option (List Bytes)
drop1 (x ∷ s) = some s
drop1 s = none

unfoldable pub dup : List Bytes → Option (List Bytes)
dup (x ∷ s) = some (x ∷ x ∷ s)
dup s = none

unfoldable pub nip : List Bytes → Option (List Bytes)
nip (x2 ∷ x1 ∷ s) = some (x2 ∷ s)
nip s = none

unfoldable pub over : List Bytes → Option (List Bytes)
over (x2 ∷ x1 ∷ s) = some (x1 ∷ x2 ∷ x1 ∷ s)
over s = none

-- Two swaps, as in the source: the third with the second, then the second with the first.
unfoldable pub rot : List Bytes → Option (List Bytes)
rot (x3 ∷ x2 ∷ x1 ∷ s) = some (x1 ∷ x3 ∷ x2 ∷ s)
rot s = none

unfoldable pub swap : List Bytes → Option (List Bytes)
swap (x2 ∷ x1 ∷ s) = some (x1 ∷ x2 ∷ s)
swap s = none

unfoldable pub tuck : List Bytes → Option (List Bytes)
tuck (x2 ∷ x1 ∷ s) = some (x2 ∷ x1 ∷ x2 ∷ s)
tuck s = none

unfoldable pub depth : Handler
depth ctx rest m = put m (get_vch ctx.ssl (pos (length m.stack)) ∷ m.stack)

unfoldable pub size : Handler
size ctx rest m = elim m.stack [
  | [] ↦ fail m.stack
  | x ∷ s ↦ put m (get_vch ctx.ssl (pos (length x)) ∷ m.stack)
]

-- `stack.erase(stack.end()-n-1)` of `OP_ROLL`, which `OP_PICK` leaves out.
abbrev pub without_nth : Bool → ℕ → List Bytes → List Bytes
without_nth false n s = s
without_nth true n s = take n s ++ drop (n + 1) s

-- `n` has been read and popped.
unfoldable pub pick_nth : Bool → ℤ → Machine → List Bytes → Step
pick_nth roll (negsuc n) m s = fail s
pick_nth roll (pos n) m s = elim (get_elem? s n) [
  | none ↦ fail s
  | some vch ↦ put m (vch ∷ without_nth roll n s)
]

unfoldable pub pick_from : Bool → Context → Machine → List Bytes → Step
pick_from roll ctx m (x ∷ y ∷ s) = elim (cast_to_big_num ctx.ssl x) [
  | none ↦ fail (x ∷ y ∷ s)
  | some bn ↦ pick_nth roll (get_int bn) m (y ∷ s)
]
pick_from roll ctx m s = fail s

unfoldable pub pick : ℕ → Handler
pick opcode ctx rest m = pick_from (opcode == op_roll) ctx m m.stack

unfoldable pub equal_from : Bool → Machine → List Bytes → Step
equal_from verify m (x2 ∷ x1 ∷ s) = conclude verify (bytes_eq x1 x2) m s
equal_from verify m s = fail s

unfoldable pub equal : ℕ → Handler
equal opcode ctx rest m = equal_from (opcode == op_equalverify) m m.stack
