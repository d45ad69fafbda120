-- ===== src/Tests/ScriptRuns.antt =====
-- Runs of scripts.
use build_env_jenkins.Common.{◌≡◌, refl, [], ◌∷◌, true, false, some, map}
use build_env_jenkins.Common.Int.{pos, negsuc, ◌+ℤ◌}
use build_env_jenkins.Bignum.{set_vch, get_vch, get_int}
use build_env_jenkins.Script.Opcode.{
  op_1, op_2, op_3, op_4, op_5, op_add, op_if, op_else, op_endif, op_roll, op_pick, op_numequal,
  op_cat, op_return,
}
use build_env_jenkins.Script.Cast.{cast_to_bool, cast_to_big_num}
use build_env_jenkins.Script.GetOp.{take_data, get_op}
use build_env_jenkins.Script.FindAndDelete.{starts_with, find_loop, find_and_delete}
use build_env_jenkins.Script.Walk.{run}
use build_env_jenkins.Script.Ops.Stack.{pick, pick_from, pick_nth}
use build_env_jenkins.Script.Ops.Control.{
  push_number, if_op, branch, else_op, flip, endif_op, leave,
}
use build_env_jenkins.Script.Ops.Numeric.{binary, binary_from, binary_result, finish_binary}
use build_env_jenkins.Script.Switch.{switch}
use build_env_jenkins.Script.Eval.{
  limit_size, all_true, execute, count_op, eval_step, eval_end, eval_script,
}
use build_env_jenkins.Tests.Toy.{context, toy}

-- The bytes of small numbers, and back.
number_bytes :
    map (get_vch toy) (pos 0 ∷ pos 5 ∷ negsuc 4 ∷ pos 128 ∷ negsuc 255 ∷ [])
    ≡ ([] ∷ (5 ∷ []) ∷ (0x85 ∷ []) ∷ (0x80 ∷ 0 ∷ []) ∷ (0 ∷ 0x81 ∷ []) ∷ [])
unfolding get_vch
number_bytes = refl

bytes_number : cast_to_big_num toy (5 ∷ 0 ∷ 0x80 ∷ []) ≡ some (negsuc 4)
unfolding cast_to_big_num set_vch get_vch
bytes_number = refl

-- 2 3 ADD 5 NUMEQUAL
sum_script :
    eval_script context [] (op_2 ∷ op_3 ∷ op_add ∷ op_5 ∷ op_numequal ∷ []) ≡ (true, (1 ∷ []) ∷ [])
unfolding eval_script run get_op eval_step count_op execute all_true limit_size switch push_number
    binary binary_from binary_result finish_binary cast_to_big_num set_vch get_vch ◌+ℤ◌ eval_end
sum_script = refl

-- 0 IF RETURN ELSE 2 ENDIF
branch_script :
    eval_script context [] (0 ∷ op_if ∷ op_return ∷ op_else ∷ op_2 ∷ op_endif ∷ [])
    ≡ (true, (2 ∷ []) ∷ [])
unfolding eval_script run get_op take_data eval_step count_op execute all_true limit_size switch
    push_number if_op branch else_op flip endif_op leave get_vch cast_to_bool eval_end
branch_script = refl

-- A disabled opcode is refused where it is not executed, and so is a branch that is left open.
refused_scripts :
    map
      (λ s. (eval_script context [] s).0)
      ((0 ∷ op_if ∷ op_cat ∷ op_endif ∷ []) ∷ (op_1 ∷ op_if ∷ []) ∷ [])
    ≡ (false ∷ false ∷ [])
unfolding eval_script run get_op take_data eval_step count_op execute all_true limit_size switch
    push_number if_op branch get_vch cast_to_bool eval_end
refused_scripts = refl

-- 3 4 5 with 2 ROLL and 2 PICK
roll_script :
    map (λ o. eval_script context [] (op_3 ∷ op_4 ∷ op_5 ∷ op_2 ∷ o ∷ [])) (op_roll ∷ op_pick ∷ [])
    ≡ ((true, (3 ∷ []) ∷ (5 ∷ []) ∷ (4 ∷ []) ∷ [])
        ∷ (true, (3 ∷ []) ∷ (5 ∷ []) ∷ (4 ∷ []) ∷ (3 ∷ []) ∷ [])
        ∷ [])
unfolding eval_script run get_op eval_step count_op execute all_true limit_size switch push_number
    pick pick_from pick_nth get_int cast_to_big_num set_vch get_vch eval_end
roll_script = refl

-- Every copy at an instruction is erased, those that come together by an erasure too.
erased :
    find_and_delete (0xab ∷ []) (0xab ∷ 0xab ∷ 2 ∷ 0xab ∷ 7 ∷ 0xab ∷ []) ≡ (2 ∷ 0xab ∷ 7 ∷ [], 3)
unfolding find_and_delete find_loop starts_with get_op take_data
erased = refl
