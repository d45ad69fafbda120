-- ===== src/Script/Builder/Length.antt =====
-- How long a push is.
use build_env_jenkins.Common.{◌+◌, ◌≤◌, Bytes, [], ◌∷◌, ◌++◌, length, length-append, arith}
use build_env_jenkins.Script.Builder.{push_data, push_all}

-- A push takes at most five bytes besides its data.
pub length-push_data : (b : Bytes) → length (push_data b) ≤ length b + 5
unfolding push_data
length-push_data b = ground arith

pub length-push_all_two : (a b : Bytes) → length (push_all (a ∷ b ∷ [])) ≤ length a + length b + 10
unfolding push_all
length-push_all_two a b = omega (
  arith,
  length-append (push_data a) (push_data b ++ []),
  length-append (push_data b) [],
  length-push_data a,
  length-push_data b,
)
