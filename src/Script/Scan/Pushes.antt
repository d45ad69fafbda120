-- ===== src/Script/Scan/Pushes.antt =====
-- Scripts of pushes, as `PushAll` writes them, under the scans.
use build_env_jenkins.Common.{
  ◌^◌, ◌≤◌, ◌<◌, ◌≡◌, ◌∙◌, Bytes, List, [], ◌∷◌, ◌++◌, true, false, length, All, get_or, ltb, arith,
}
use build_env_jenkins.Script.Opcode.{op_16}
use build_env_jenkins.Script.Builder.{push_data, push_all}
use build_env_jenkins.Script.GetOp.RoundTrip.{push_opcode, get_op-push_data}
use build_env_jenkins.Script.Walk.{go, Loop, run}
use build_env_jenkins.Script.Walk.Laws.{run-fetched, run-nil}
use build_env_jenkins.Script.Scan.{
  push_only_loop, is_push_only, is_wasteful, canonical_loop, has_canonical_pushes,
}

-- A loop that goes on at every push of a script of pushes reaches its end.
run-push_all :
    {R : Type 0} (l : Loop (Unit {0}) R) (P : Bytes → Type 0)
    → ((b rest : Bytes) → P b → l.step (push_opcode b) b rest tt ≡ go tt)
    → (vs : List Bytes) → All (λ v. (length v < 2 ^ 32) × P v) vs
    → run l (push_all vs) tt ≡ l.finish tt
unfolding push_all
run-push_all l P goes [] h = run-nil l tt
run-push_all l P goes (v ∷ vs) h =
    run-fetched l (push_data v ++ push_all vs) tt (get_op-push_data v (push_all vs) h.0.0)
    ∙ rw (goes v (push_all vs) h.0.1) (run-push_all l P goes vs h.1)

push_opcode_small : (b : Bytes) → ltb op_16 (push_opcode b) ≡ false
push_opcode_small b = ground arith

-- What `PushAll` makes of values below 2^32 bytes only pushes.
pub is_push_only-push_all :
    (vs : List Bytes)
    → All (λ v. (length v < 2 ^ 32) × Unit {0}) vs
    → is_push_only (push_all vs) ≡ true
unfolding is_push_only
is_push_only-push_all vs h =
    run-push_all push_only_loop (λ v. Unit) (λ b rest p. rw (push_opcode_small b)) vs h

-- A value that an opcode of its own pushes: one byte, up to 16.
abbrev pub HasOpcode : Bytes → Type 0
HasOpcode v = (length v ≡ 1) × (get_or v 0 0 ≤ 16)

push_is_frugal : (b : Bytes) → ¬ (HasOpcode b) → is_wasteful (push_opcode b) b ≡ false
unfolding is_wasteful
push_is_frugal b h = ground arith

-- `operator<<` chooses the shortest form for every value below 2^32 bytes that has no opcode of its
-- own.
pub has_canonical_pushes-push_all :
    (vs : List Bytes)
    → All (λ v. (length v < 2 ^ 32) × ¬ (HasOpcode v)) vs
    → has_canonical_pushes (push_all vs) ≡ true
unfolding has_canonical_pushes
has_canonical_pushes-push_all vs h =
    run-push_all canonical_loop (λ v. ¬ (HasOpcode v))
      (λ b rest p. rw (push_opcode_small b, push_is_frugal b p)) vs h
