-- ===== src/Script/Ops/Numeric.antt =====
-- "Numeric" of `EvalScript`, without the operations that are disabled.
use build_env_jenkins.Common.{
  ℕ, Bytes, List, [], ◌∷◌, Bool, true, false, not, ◌&&◌, ◌||◌, none, some, ◌==◌, if◌then◌else◌,
}
use build_env_jenkins.Common.Int.{ℤ, pos, ◌+ℤ◌, ◌-ℤ◌, ltb_ℤ, leb_ℤ, eqb_ℤ}
use build_env_jenkins.Bignum.{get_vch}
use build_env_jenkins.Script.Opcode.{
  op_1add, op_1sub, op_negate, op_abs, op_not, op_add, op_sub, op_booland, op_boolor, op_numequal,
  op_numequalverify, op_numnotequal, op_lessthan, op_greaterthan, op_lessthanorequal,
  op_greaterthanorequal, op_min,
}
use build_env_jenkins.Script.Cast.{cast_to_bool, cast_to_big_num}
use build_env_jenkins.Script.Machine.{Machine, Context, Step, Handler, fail, put, vch_bool}

-- `bn = (condition)`
abbrev pub bn_bool : Bool → ℤ
bn_bool true = pos 1
bn_bool false = pos 0

abbrev pub is_zero : ℤ → Bool
is_zero bn = eqb_ℤ bn (pos 0)

unfoldable pub unary_result : ℕ → ℤ → ℤ
unary_result opcode bn =
    if opcode == op_1add
    then bn +ℤ pos 1
    else if opcode == op_1sub
    then bn -ℤ pos 1
    else if opcode == op_negate
    then pos 0 -ℤ bn
    else if opcode == op_abs
    then (if ltb_ℤ bn (pos 0) then pos 0 -ℤ bn else bn)
    else if opcode == op_not
    then bn_bool (is_zero bn)
    else bn_bool (not (is_zero bn))

unfoldable pub unary_from : ℕ → Context → Machine → List Bytes → Step
unary_from opcode ctx m [] = fail []
unary_from opcode ctx m (x ∷ s) = elim (cast_to_big_num ctx.ssl x) [
  | none ↦ fail (x ∷ s)
  | some bn ↦ put m (get_vch ctx.ssl (unary_result opcode bn) ∷ s)
]

unfoldable pub unary : ℕ → Handler
unary opcode ctx rest m = unary_from opcode ctx m m.stack

unfoldable pub binary_result : ℕ → ℤ → ℤ → ℤ
binary_result opcode bn1 bn2 =
    if opcode == op_add
    then bn1 +ℤ bn2
    else if opcode == op_sub
    then bn1 -ℤ bn2
    else if opcode == op_booland
    then bn_bool (not (is_zero bn1) && not (is_zero bn2))
    else if opcode == op_boolor
    then bn_bool (not (is_zero bn1) || not (is_zero bn2))
    else if opcode == op_numequal
    then bn_bool (eqb_ℤ bn1 bn2)
    else if opcode == op_numequalverify
    then bn_bool (eqb_ℤ bn1 bn2)
    else if opcode == op_numnotequal
    then bn_bool (not (eqb_ℤ bn1 bn2))
    else if opcode == op_lessthan
    then bn_bool (ltb_ℤ bn1 bn2)
    else if opcode == op_greaterthan
    then bn_bool (ltb_ℤ bn2 bn1)
    else if opcode == op_lessthanorequal
    then bn_bool (leb_ℤ bn1 bn2)
    else if opcode == op_greaterthanorequal
    then bn_bool (leb_ℤ bn2 bn1)
    else if opcode == op_min
    then (if ltb_ℤ bn1 bn2 then bn1 else bn2)
    else (if ltb_ℤ bn2 bn1 then bn1 else bn2)

-- `OP_NUMEQUALVERIFY` reads its own result back.
unfoldable pub finish_binary : ℕ → Bytes → Machine → List Bytes → Step
finish_binary opcode result m s =
    if opcode == op_numequalverify
    then (if cast_to_bool result then put m s else fail (result ∷ s))
    else put m (result ∷ s)

unfoldable pub binary_from : ℕ → Context → Machine → List Bytes → Step
binary_from opcode ctx m (x2 ∷ x1 ∷ s) = elim (cast_to_big_num ctx.ssl x1) [
  | none ↦ fail (x2 ∷ x1 ∷ s)
  | some bn1 ↦ elim (cast_to_big_num ctx.ssl x2) [
    | none ↦ fail (x2 ∷ x1 ∷ s)
    | some bn2 ↦ finish_binary opcode (get_vch ctx.ssl (binary_result opcode bn1 bn2)) m s
  ]
]
binary_from opcode ctx m s = fail s

unfoldable pub binary : ℕ → Handler
binary opcode ctx rest m = binary_from opcode ctx m m.stack

unfoldable pub within_from : Context → Machine → List Bytes → Step
within_from ctx m (x3 ∷ x2 ∷ x1 ∷ s) = elim (cast_to_big_num ctx.ssl x1) [
  | none ↦ fail (x3 ∷ x2 ∷ x1 ∷ s)
  | some bn1 ↦ elim (cast_to_big_num ctx.ssl x2) [
    | none ↦ fail (x3 ∷ x2 ∷ x1 ∷ s)
    | some bn2 ↦ elim (cast_to_big_num ctx.ssl x3) [
      | none ↦ fail (x3 ∷ x2 ∷ x1 ∷ s)
      | some bn3 ↦ put m (vch_bool (leb_ℤ bn2 bn1 && ltb_ℤ bn1 bn3) ∷ s)
    ]
  ]
]
within_from ctx m s = fail s

unfoldable pub within : Handler
within ctx rest m = within_from ctx m m.stack
