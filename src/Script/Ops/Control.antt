-- ===== src/Script/Ops/Control.antt =====
-- "Push value", "Control" and the alternative stack of `EvalScript`.
use build_env_jenkins.Common.{ℕ, ◌-◌, Bytes, List, [], ◌∷◌, Bool, false, not, ◌==◌, if◌then◌else◌}
use build_env_jenkins.Common.Int.{sub_ℕ}
use build_env_jenkins.Bignum.{get_vch}
use build_env_jenkins.Script.Opcode.{op_1, op_notif}
use build_env_jenkins.Script.Cast.{cast_to_bool}
use build_env_jenkins.Script.Walk.{go}
use build_env_jenkins.Script.Machine.{Machine, Step, Handler, fail, put}

-- `OP_1NEGATE` and `OP_1` to `OP_16`: the number is the distance from `OP_1 - 1`.
unfoldable pub push_number : ℕ → Handler
push_number opcode ctx rest m = put m (get_vch ctx.ssl (sub_ℕ opcode (op_1 - 1)) ∷ m.stack)

unfoldable pub nop : Handler
nop ctx rest m = go m

-- The condition of an `OP_IF` that is executed.
unfoldable pub branch : Bool → Machine → List Bytes → Step
branch negated m [] = fail []
branch negated m (vch ∷ s) =
    let value = cast_to_bool vch in
    go (record m { stack = s; vf_exec = (if negated then not value else value) ∷ m.vf_exec })

-- `OP_IF` and `OP_NOTIF`; in a branch that is not executed nothing is read.
unfoldable pub if_op : ℕ → Bool → Handler
if_op opcode executed ctx rest m =
    if executed
    then branch (opcode == op_notif) m m.stack
    else go (record m { vf_exec = false ∷ m.vf_exec })

unfoldable pub flip : List Bool → Machine → Step
flip [] m = fail m.stack
flip (b ∷ bs) m = go (record m { vf_exec = not b ∷ bs })

unfoldable pub else_op : Handler
else_op ctx rest m = flip m.vf_exec m

unfoldable pub leave : List Bool → Machine → Step
leave [] m = fail m.stack
leave (b ∷ bs) m = go (record m { vf_exec = bs })

unfoldable pub endif_op : Handler
endif_op ctx rest m = leave m.vf_exec m

unfoldable pub verify_from : Machine → List Bytes → Step
verify_from m [] = fail []
verify_from m (vch ∷ s) = if cast_to_bool vch then put m s else fail (vch ∷ s)

unfoldable pub verify : Handler
verify ctx rest m = verify_from m m.stack

unfoldable pub return_op : Handler
return_op ctx rest m = fail m.stack

unfoldable pub to_alt : List Bytes → Machine → Step
to_alt [] m = fail []
to_alt (x ∷ s) m = go (record m { stack = s; alt_stack = x ∷ m.alt_stack })

unfoldable pub to_alt_stack : Handler
to_alt_stack ctx rest m = to_alt m.stack m

unfoldable pub from_alt : List Bytes → Machine → Step
from_alt [] m = fail m.stack
from_alt (x ∷ s) m = go (record m { stack = x ∷ m.stack; alt_stack = s })

unfoldable pub from_alt_stack : Handler
from_alt_stack ctx rest m = from_alt m.alt_stack m
