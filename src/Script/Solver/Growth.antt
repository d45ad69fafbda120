-- ===== src/Script/Solver/Growth.antt =====
-- How many solutions a template adds at least where it matches: the loop of `Solver`.
use build_env_jenkins.Common.{
  ℕ, zero, suc, ◌+◌, ◌≤◌, ◌≡◌, refl, ap, Bytes, List, [], ◌∷◌, ◌++◌, Option, none, some,
  some-injective, Bool, true, false, length, length-append, leb, ◌==◌, if◌then◌else◌, ◌&&◌, ◌||◌,
  bytes_eq, arith,
}
use build_env_jenkins.Script.Opcode.{
  op_pubkey, op_pubkeyhash, op_pubkeys, op_smallinteger, op_smalldata, op_invalidopcode, op_0, op_1,
  op_16,
}
use build_env_jenkins.Script.Builder.{decode_op_n}
use build_env_jenkins.Script.GetOp.{Fetch, fetched, refused, get_op}
use build_env_jenkins.Script.Solver.{
  Cursor, at, behind, is_key_size, collect_keys, match_op, match_ops, fetch_at,
}

-- How many solutions an instruction of a template adds at least.
abbrev pub adds : ℕ → ℕ
adds t = if t == op_pubkey || t == op_pubkeyhash then 1 else 0

abbrev pub adds_all : Bytes → ℕ
adds_all [] = 0
adds_all (t ∷ ts) = adds t + adds_all ts

match_op_grows :
    (t opcode : ℕ) (pushed : Bytes) (sols : List Bytes) {sols' : List Bytes}
    → match_op t opcode pushed sols ≡ some sols'
    → length sols + adds t ≤ length sols'
unfolding match_op
match_op_grows t opcode pushed sols {sols'} e =
    by_key (t == op_pubkey) (t == op_pubkeyhash) (t == op_smallinteger) (t == op_smalldata) e
  where
    one : (v : Bytes) → some (sols ++ v ∷ []) ≡ some sols' → length sols + 1 ≤ length sols'
    one v e = omega (arith, length-append sols (v ∷ []), ap length (some-injective _ _ e))

    none_more : some sols ≡ some sols' → length sols + 0 ≤ length sols'
    none_more e = omega (arith, ap length (some-injective _ _ e))

    when :
        (ok : Bool) (v : Bytes)
        → (if ok then some (sols ++ v ∷ []) else none) ≡ some sols'
        → length sols + 1 ≤ length sols'
    when true v e = one v e
    when false v e = cc e

    same :
        (ok : Bool) → (if ok then some sols else none) ≡ some sols' → length sols + 0 ≤ length sols'
    same true e = none_more e
    same false e = cc e

    number :
        (o : Option ℕ)
        → (elim o as (λ x. Option (List Bytes)) [
          | none ↦ none
          | some n ↦ some (sols ++ (n ∷ []) ∷ [])
        ])
          ≡ some sols'
        → length sols + 0 ≤ length sols'
    number none e = cc e
    number (some n) e = omega (arith, one (n ∷ []) e)

    small :
        (ok : Bool)
        → (if ok
            then elim (decode_op_n opcode) as (λ x. Option (List Bytes)) [
              | none ↦ none
              | some n ↦ some (sols ++ (n ∷ []) ∷ [])
            ]
            else none)
          ≡ some sols'
        → length sols + 0 ≤ length sols'
    small true e = number (decode_op_n opcode) e
    small false e = cc e

    by_key :
        (a b c d : Bool)
        → (if a
            then (if is_key_size pushed then some (sols ++ pushed ∷ []) else none)
            else if b
            then (if length pushed == 20 then some (sols ++ pushed ∷ []) else none)
            else if c
            then (if opcode == op_0 || leb op_1 opcode && leb opcode op_16
                then elim (decode_op_n opcode) as (λ x. Option (List Bytes)) [
                  | none ↦ none
                  | some n ↦ some (sols ++ (n ∷ []) ∷ [])
                ]
                else none)
            else if d
            then (if leb (length pushed) 80 then some sols else none)
            else if opcode == t && bytes_eq pushed []
            then some sols
            else none)
          ≡ some sols'
        → length sols + (if a || b then 1 else 0) ≤ length sols'
    by_key true b c d e = when (is_key_size pushed) pushed e
    by_key false true c d e = when (length pushed == 20) pushed e
    by_key false false true d e = small _ e
    by_key false false false true e = same _ e
    by_key false false false false e = same _ e

collect_keys_grows :
    (fuel opcode : ℕ) (pushed rest : Bytes) (sols : List Bytes)
    → length sols ≤ length (collect_keys fuel opcode pushed rest sols).0
unfolding collect_keys
collect_keys_grows zero opcode pushed rest sols = omega arith
collect_keys_grows (suc fuel) opcode pushed rest sols =
    by_size (is_key_size pushed) (collect_keys_grows fuel)
  where
    by_fetch :
        (r : Fetch)
        → ((opcode' : ℕ) (pushed' rest' : Bytes) (more : List Bytes)
            → length more ≤ length (collect_keys fuel opcode' pushed' rest' more).0)
        → length sols
          ≤ length
              (elim r as (λ x. List Bytes × Cursor) [
                | refused rest' ↦ (sols ++ pushed ∷ [], behind op_invalidopcode [] rest')
                | fetched opcode' pushed' rest' ↦
                    collect_keys fuel opcode' pushed' rest' (sols ++ pushed ∷ [])
              ]).0
    by_fetch (refused rest') more = omega (arith, length-append sols (pushed ∷ []))
    by_fetch (fetched opcode' pushed' rest') more =
        omega (
          arith,
          length-append sols (pushed ∷ []),
          more opcode' pushed' rest' (sols ++ pushed ∷ []),
        )

    by_size :
        (ok : Bool)
        → ((opcode' : ℕ) (pushed' rest' : Bytes) (more : List Bytes)
            → length more ≤ length (collect_keys fuel opcode' pushed' rest' more).0)
        → length sols
          ≤ length
              (elim ok as (λ x. List Bytes × Cursor) [
                | false ↦ (sols, behind opcode pushed rest)
                | true ↦ elim (get_op rest) as (λ x. List Bytes × Cursor) [
                  | refused rest' ↦ (sols ++ pushed ∷ [], behind op_invalidopcode [] rest')
                  | fetched opcode' pushed' rest' ↦
                      collect_keys fuel opcode' pushed' rest' (sols ++ pushed ∷ [])
                ]
              ]).0
    by_size false more = omega arith
    by_size true more = by_fetch (get_op rest) more

pub match_ops_grows :
    (ts : Bytes) (c : Cursor) (sols : List Bytes) {sols' : List Bytes}
    → match_ops ts c sols ≡ some sols'
    → length sols + adds_all ts ≤ length sols'
unfolding match_ops
match_ops_grows [] (at []) sols e = omega (arith, ap length (some-injective _ _ e))
match_ops_grows [] (at (b ∷ pc)) sols e = cc e
match_ops_grows [] (behind opcode pushed rest) sols e = cc e
match_ops_grows (t ∷ ts) c sols {sols'} e =
    by_fetch (fetch_at c) e (λ d more. match_ops_grows ts d more {sols' = sols'})
  where
    Rest : Type 0
    Rest =
        (d : Cursor) (more : List Bytes)
        → match_ops ts d more ≡ some sols'
        → length more + adds_all ts ≤ length sols'

    by_op :
        (rest : Bytes) (o : Option (List Bytes))
        → ((more : List Bytes) → o ≡ some more → length sols + adds t ≤ length more)
        → (elim o as (λ x. Option (List Bytes)) [
          | none ↦ none
          | some more ↦ match_ops ts (at rest) more
        ])
          ≡ some sols'
        → Rest
        → length sols + adds_all (t ∷ ts) ≤ length sols'
    by_op rest none grows e rests = cc e
    by_op rest (some more) grows e rests = omega (arith, grows more refl, rests (at rest) more e)

    by_keys :
        (opcode : ℕ) (pushed rest : Bytes) (keys : Bool)
        → (t == op_pubkeys) ≡ keys
        → (elim keys as (λ x. Option (List Bytes)) [
          | true ↦
              match_ops ts
                (collect_keys (suc (length rest)) opcode pushed rest sols).1
                (collect_keys (suc (length rest)) opcode pushed rest sols).0
          | false ↦ elim (match_op t opcode pushed sols) as (λ x. Option (List Bytes)) [
            | none ↦ none
            | some more ↦ match_ops ts (at rest) more
          ]
        ])
          ≡ some sols'
        → Rest
        → length sols + adds_all (t ∷ ts) ≤ length sols'
    by_keys opcode pushed rest true k e rests =
        let none_added : adds t ≡ 0 = ground (arith) in
        omega (
          arith,
          none_added,
          collect_keys_grows (suc (length rest)) opcode pushed rest sols,
          rests _ _ e,
        )
    by_keys opcode pushed rest false k e rests =
        by_op rest (match_op t opcode pushed sols)
          (λ more h. match_op_grows t opcode pushed sols {sols' = more} h) e rests

    by_fetch :
        (r : Fetch)
        → (elim r as (λ x. Option (List Bytes)) [
          | refused _ ↦ none
          | fetched opcode pushed rest ↦ elim (t == op_pubkeys) as (λ x. Option (List Bytes)) [
            | true ↦
                match_ops ts
                  (collect_keys (suc (length rest)) opcode pushed rest sols).1
                  (collect_keys (suc (length rest)) opcode pushed rest sols).0
            | false ↦ elim (match_op t opcode pushed sols) as (λ x. Option (List Bytes)) [
              | none ↦ none
              | some more ↦ match_ops ts (at rest) more
            ]
          ]
        ])
          ≡ some sols'
        → Rest
        → length sols + adds_all (t ∷ ts) ≤ length sols'
    by_fetch (refused rest) e rests = cc e
    by_fetch (fetched opcode pushed rest) e rests =
        by_keys opcode pushed rest (t == op_pubkeys) refl e rests
