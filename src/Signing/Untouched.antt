-- ===== src/Signing/Untouched.antt =====
-- `FindAndDelete` of a signature in the script of a key hash, which it leaves as it is.
use build_env_jenkins.Common.{
  ℕ, suc, zero, ◌-◌, ◌≤◌, ◌<◌, ◌≡◌, ◌≢◌, ◌∙◌, ◌⊎◌, refl, sym, ap, subst, Bytes, [], ◌∷◌, ◌++◌, Bool,
  true, false, length, take, drop, to_le, ltb, leb, ◌==◌, ==_iff, ◌&&◌, Bool-cases, inl, inr, arith,
  length-append,
}
use build_env_jenkins.Script.Opcode.{
  op_dup, op_hash160, op_equalverify, op_checksig, op_pushdata1, op_pushdata2, op_pushdata4,
}
use build_env_jenkins.Script.Builder.{push_data}
use build_env_jenkins.Script.GetOp.{Fetch, fetched, refused, get_op}
use build_env_jenkins.Script.Eval.Steps.{get_op-opcode}
use build_env_jenkins.Script.FindAndDelete.{starts_with, count, keep, find_loop, find_and_delete}
use build_env_jenkins.Script.Solver.RoundTrip.{read_id}
use build_env_jenkins.Script.Solver.{key_id, set_destination}

-- How a push begins: with an opcode up to `OP_PUSHDATA4`, which is 20 for 20 bytes only.
record Begins (sig : Bytes) : Type 0 where
  first : ℕ
  others : Bytes
  same : push_data sig ≡ first ∷ others
  small : first ≤ 78
  direct : first ≡ 20 → (others ≡ sig) × (length sig ≡ 20)

push_data-Begins : (sig : Bytes) → Begins sig
unfolding push_data
push_data-Begins sig = elim (Bool-cases (ltb (length sig) 76)) [
  | inl short ↦ record {
    first = length sig;
    others = sig;
    same = rw (push_data, short);
    small = ground arith;
    direct = λ e. (refl, e);
  }
  | inr long ↦ elim (Bool-cases (leb (length sig) 255)) [
    | inl one ↦ record {
      first = op_pushdata1;
      others = length sig ∷ sig;
      same = rw (push_data, long, one);
      small = omega arith;
      direct = λ e. absurd (omega (arith, e));
    }
    | inr more ↦ elim (Bool-cases (leb (length sig) 65535)) [
      | inl two ↦ record {
        first = op_pushdata2;
        others = to_le 2 (length sig) ++ sig;
        same = rw (push_data, long, more, two);
        small = omega arith;
        direct = λ e. absurd (omega (arith, e));
      }
      | inr four ↦ record {
        first = op_pushdata4;
        others = to_le 4 (length sig) ++ sig;
        same = rw (push_data, long, more, four);
        small = omega arith;
        direct = λ e. absurd (omega (arith, e));
      }
    ]
  ]
]

take-append : (xs ys : Bytes) → take (length xs) (xs ++ ys) ≡ xs
take-append [] ys = refl
take-append (x ∷ xs) ys = ap (λ t. x ∷ t) (take-append xs ys)

-- A prefix as long as the list before the rest is that list.
starts_with-eq : (b xs ys : Bytes) → length b ≡ length xs → starts_with b (xs ++ ys) ≡ true → b ≡ xs
unfolding starts_with
starts_with-eq [] [] ys h e = refl
starts_with-eq [] (x ∷ xs) ys h e = absurd (omega (arith, h))
starts_with-eq (y ∷ b) [] ys h e = absurd (omega (arith, h))
starts_with-eq (y ∷ b) (x ∷ xs) ys h e =
    both (y == x) refl (starts_with-eq b xs ys (omega (arith, h))) e
  where
    both :
        (same : Bool)
        → (y == x) ≡ same
        → (starts_with b (xs ++ ys) ≡ true → b ≡ xs)
        → (same && starts_with b (xs ++ ys)) ≡ true
        → y ∷ b ≡ x ∷ xs
    both true k rest e = λ i. (==_iff y x).0 k i ∷ rest e i
    both false k rest e = cc e

module _ (first : ℕ) (others : Bytes) where
  -- One round that erases nothing.
  find_step :
      (fuel opcode : ℕ) (pushed head rest : Bytes)
      → starts_with (first ∷ others) (head ++ rest) ≡ false
      → get_op (head ++ rest) ≡ fetched opcode pushed rest
      → find_loop fuel (first ∷ others) rest ≡ (rest, 0)
      → find_loop (suc fuel) (first ∷ others) (head ++ rest) ≡ (head ++ rest, 0)
  unfolding find_loop
  find_step fuel opcode pushed head rest other fetch next =
      by_round (starts_with (first ∷ others) (head ++ rest)) (get_op (head ++ rest)) other fetch
      ∙ ap (keep (take (length (head ++ rest) - length rest) (head ++ rest))) next
      ∙ ap (λ t. (t ++ rest, 0)) head_taken
    where
      head_taken : take (length (head ++ rest) - length rest) (head ++ rest) ≡ head
      head_taken =
          ap (λ n. take n (head ++ rest)) (omega (arith, length-append head rest))
          ∙ take-append head rest

      by_round :
          (found : Bool) (r : Fetch)
          → found ≡ false
          → r ≡ fetched opcode pushed rest
          → ◌≡◌ {A = Bytes × ℕ}
              (elim found [
                | true ↦ count (
                    find_loop fuel (first ∷ others) (drop (length (first ∷ others)) (head ++ rest)))
                | false ↦ elim r [
                  | refused _ ↦ (head ++ rest, 0)
                  | fetched _ _ rest' ↦
                      keep
                        (take (length (head ++ rest) - length rest') (head ++ rest))
                        (find_loop fuel (first ∷ others) rest')
                ]
              ])
              (keep
                (take (length (head ++ rest) - length rest) (head ++ rest))
                (find_loop fuel (first ∷ others) rest))
      by_round found r e k = rw (e, k) refl

find_end : (first : ℕ) (others : Bytes) (fuel : ℕ) → find_loop fuel (first ∷ others) [] ≡ ([], 0)
unfolding find_loop starts_with get_op
find_end first others zero = refl
find_end first others (suc fuel) = refl

-- An opcode above the pushes is not the first byte of a push.
not_at :
    (first opcode : ℕ) (others rest : Bytes)
    → first ≤ 78
    → 78 < opcode
    → starts_with (first ∷ others) (opcode ∷ rest) ≡ false
unfolding starts_with
not_at first opcode others rest h k = rw (different first opcode h k) refl
  where
    different : (a b : ℕ) → a ≤ 78 → 78 < b → (a == b) ≡ false
    different a b h k = ground arith

-- Nor is a signature the identifier that the script pushes, where it is not that identifier.
not_at_id :
    (sig id rest : Bytes) (b : Begins sig)
    → length id ≡ 20
    → sig ≢ id
    → starts_with (b.first ∷ b.others) (20 ∷ (id ++ rest)) ≡ false
unfolding starts_with
not_at_id sig id rest b h other =
    by_first (b.first == 20) refl (Bool-cases (starts_with b.others (id ++ rest)))
  where
    by_first :
        (twenty : Bool)
        → (b.first == 20) ≡ twenty
        → (starts_with b.others (id ++ rest) ≡ true) ⊎ (starts_with b.others (id ++ rest) ≡ false)
        → (twenty && starts_with b.others (id ++ rest)) ≡ false
    by_first false k e = refl
    by_first true k (inr e) = e
    by_first true k (inl e) =
        let (same, long) = b.direct ((==_iff b.first 20).0 k) in
        absurd
          (other (sym same ∙ starts_with-eq b.others id rest (ap length same ∙ long ∙ sym h) e))

abbrev script_of : Bytes → Bytes
script_of id = op_dup ∷ op_hash160 ∷ 20 ∷ (id ++ op_equalverify ∷ op_checksig ∷ [])

-- The script of a key hash holds no signature, so that nothing is erased.
pub find_and_delete-key_id :
    (sig id : Bytes)
    → length id ≡ 20
    → sig ≢ id
    → find_and_delete (push_data sig) (set_destination (key_id id))
      ≡ (set_destination (key_id id), 0)
unfolding set_destination find_and_delete
find_and_delete-key_id sig id h other = rw b.same (
    subst (λ n. find_loop n (b.first ∷ b.others) (script_of id) ≡ (script_of id, 0))
      (omega (arith, length-append id (op_equalverify ∷ op_checksig ∷ []), h)) rounds)
  where
    b : Begins sig
    b = push_data-Begins sig

    -- A round over an opcode that pushes nothing.
    over :
        (fuel opcode : ℕ) (rest : Bytes)
        → 78 < opcode
        → find_loop fuel (b.first ∷ b.others) rest ≡ (rest, 0)
        → find_loop (suc fuel) (b.first ∷ b.others) (opcode ∷ rest) ≡ (opcode ∷ rest, 0)
    over fuel opcode rest above next =
        find_step b.first b.others fuel opcode [] (opcode ∷ []) rest
          (not_at b.first opcode b.others rest b.small above) (get_op-opcode opcode rest above) next

    over_id :
        (fuel : ℕ) (rest : Bytes)
        → find_loop fuel (b.first ∷ b.others) rest ≡ (rest, 0)
        → find_loop (suc fuel) (b.first ∷ b.others) (20 ∷ (id ++ rest)) ≡ (20 ∷ (id ++ rest), 0)
    over_id fuel rest next =
        find_step b.first b.others fuel 20 id (20 ∷ id) rest (not_at_id sig id rest b h other)
          (read_id id rest h) next

    rounds : find_loop 26 (b.first ∷ b.others) (script_of id) ≡ (script_of id, 0)
    rounds = over 25 op_dup _ (omega arith) (
        over 24 op_hash160 _ (omega arith) (
          over_id 23 _ (
            over 22 op_equalverify _ (omega arith)
              (over 21 op_checksig [] (omega arith) (find_end b.first b.others 21)))))
