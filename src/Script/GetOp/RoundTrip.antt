-- ===== src/Script/GetOp/RoundTrip.antt =====
-- `GetOp2` reads what `operator<<` has written.
use build_env_jenkins.Common.{
  ℕ, ◌<◌, ◌^◌, ◌≡◌, Bytes, [], ◌∷◌, ◌++◌, length, to_le, from_le, from_le-to_le, length-to_le,
  length-append, take-append_left, drop-append_left, ltb, leb, if◌then◌else◌, append_assoc, arith,
  tests, le→ltb, le→leb, Bool-cases, inl, inr, subst,
}
use build_env_jenkins.Script.Opcode.{op_pushdata1, op_pushdata2, op_pushdata4}
use build_env_jenkins.Script.Builder.{push_data}
use build_env_jenkins.Script.GetOp.{fetched, take_data, sized_data, get_op}

take_data-append :
    (opcode : ℕ) (b rest : Bytes) → take_data opcode (length b) (b ++ rest) ≡ fetched opcode b rest
unfolding take_data
take_data-append opcode b rest = rw (
  le→ltb (length (b ++ rest)) (length b) (omega (arith, length-append b rest)),
  take-append_left,
  drop-append_left,
)

-- A length field, then the data.
sized_data_field :
    (opcode : ℕ) (field b rest : Bytes)
    → from_le field ≡ length b
    → sized_data opcode (length field) ((field ++ b) ++ rest) ≡ fetched opcode b rest
unfolding sized_data
sized_data_field opcode field b rest h =
    rw
      (
        append_assoc,
        le→ltb (length (field ++ (b ++ rest))) (length field)
            (omega (arith, length-append field (b ++ rest))),
        take-append_left,
        drop-append_left,
        h,
      )
      (take_data-append opcode b rest)

sized_data-append :
    (opcode width : ℕ) (b rest : Bytes)
    → length b < 256 ^ width
    → sized_data opcode width ((to_le width (length b) ++ b) ++ rest) ≡ fetched opcode b rest
sized_data-append opcode width b rest h =
    subst (λ w. sized_data opcode w ((to_le width (length b) ++ b) ++ rest) ≡ fetched opcode b rest)
      (length-to_le width (length b))
      (sized_data_field opcode (to_le width (length b)) b rest (from_le-to_le width (length b) h))

-- The opcode that `push_data` chooses for data.
abbrev pub push_opcode : Bytes → ℕ
push_opcode b =
    if ltb (length b) op_pushdata1
    then length b
    else if leb (length b) 0xff
    then op_pushdata1
    else if leb (length b) 0xffff
    then op_pushdata2
    else op_pushdata4

-- Data that is pushed is read back as it was, and the rest of the script is left, for every
-- length below 2^32 (the four length encodings).
pub get_op-push_data :
    (b rest : Bytes)
    → length b < 2 ^ 32
    → get_op (push_data b ++ rest) ≡ fetched (push_opcode b) b rest
unfolding get_op push_data
get_op-push_data b rest h = elim (Bool-cases (ltb (length b) op_pushdata1)) [
  | inl direct ↦
      rw (direct, le→leb (length b) op_pushdata4 (omega tests), direct)
        (take_data-append (length b) b rest)
  | inr long ↦ elim (Bool-cases (leb (length b) 0xff)) [
    | inl one ↦ rw (long, one) (sized_data_field 76 (length b ∷ []) b rest (omega arith))
    | inr more ↦ elim (Bool-cases (leb (length b) 0xffff)) [
      | inl two ↦ rw (long, more, two) (sized_data-append 77 2 b rest (omega tests))
      | inr four ↦ rw (long, more, four) (sized_data-append 78 4 b rest (omega tests))
    ]
  ]
]
