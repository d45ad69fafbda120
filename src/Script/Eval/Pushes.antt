-- ===== src/Script/Eval/Pushes.antt =====
-- Running a script of pushes.
use mathlib.Core.List.{reverse_aux, reverse_aux-eq}
use build_env_jenkins.Common.{
  ◌+◌, ◌≤◌, ◌≡◌, ◌∙◌, refl, Bytes, List, [], ◌∷◌, ◌++◌, reverse, append_assoc, append-nil, true,
  length, All, arith, le→ltb, ap,
}
use build_env_jenkins.Script.Builder.{push_all}
use build_env_jenkins.Script.Walk.{run}
use build_env_jenkins.Script.Walk.Laws.{run-nil}
use build_env_jenkins.Script.Machine.{Machine, Context}
use build_env_jenkins.Script.Eval.{all_true, eval_loop, eval_end, start, eval_script}
use build_env_jenkins.Script.Eval.Steps.{run-push_data}

-- Data that a script can push.
abbrev pub IsPushable : Bytes → Type 0
IsPushable v = length v ≤ 520

pub run-push_all :
    (ctx : Context) (vs : List Bytes) (rest : Bytes) (m : Machine)
    → all_true m.vf_exec ≡ true
    → All IsPushable vs
    → length vs + (length m.stack + length m.alt_stack) ≤ 1000
    → run (eval_loop ctx) (push_all vs ++ rest) m
      ≡ run (eval_loop ctx) rest (record m { stack = reverse_aux vs m.stack })
unfolding push_all
run-push_all ctx [] rest m x s r = refl
run-push_all ctx (v ∷ vs) rest m x s r = rw append_assoc (
    run-push_data ctx v (push_all vs ++ rest) m
      (record { executed = x; small = s.0; room = omega arith })
    ∙ run-push_all ctx vs rest (record m { stack = v ∷ m.stack }) x s.1 (omega arith))

-- A script of pushes within the limits is accepted, and leaves what it has pushed on top of the
-- stack, the last push first.
pub eval_script-push_all :
    (ctx : Context) (stack vs : List Bytes)
    → length (push_all vs) ≤ 10000
    → All IsPushable vs
    → length vs + length stack ≤ 1000
    → eval_script ctx stack (push_all vs) ≡ (true, reverse vs ++ stack)
unfolding eval_script eval_end all_true
eval_script-push_all ctx stack vs short s r = rw (le→ltb 10000 (length (push_all vs)) short) (
    rw append-nil at (run-push_all ctx vs [] (start stack (push_all vs)) refl s (omega arith))
    ∙ run-nil (eval_loop ctx) _
    ∙ ap (λ s. (true, s)) (reverse_aux-eq vs stack))
