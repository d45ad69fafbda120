-- ===== src/Script/Scan/Counts.antt =====
-- The two ways to count signature operations.
use build_env_jenkins.Common.{
  ℕ, ◌+◌, ◌*◌, ◌^◌, ◌≤◌, ◌<◌, ◌≡◌, refl, Bytes, true, false, length, arith,
}
use build_env_jenkins.Script.Opcode.{op_invalidopcode}
use build_env_jenkins.Script.Builder.{decode_op_n}
use build_env_jenkins.Script.Walk.Simulation.{run_sim}
use build_env_jenkins.Script.Scan.{add32, sig_ops_of, sig_op_loop, get_sig_op_count}

-- One instruction counts for at most 20, and for no more when it is counted accurately.
sig_ops_of_le :
    (last opcode : ℕ)
    → (sig_ops_of true last opcode ≤ sig_ops_of false last opcode)
      × (sig_ops_of false last opcode ≤ 20)
unfolding sig_ops_of decode_op_n
sig_ops_of_le last opcode = ground arith

-- The counts so far: the accurate one is no larger, and the other one cannot wrap around.
abbrev Counted : ℕ → ℕ × ℕ → ℕ × ℕ → Type 0
Counted left s t = (s.1 ≡ t.1) × (s.0 ≤ t.0) × (t.0 + 20 * left < 2 ^ 32)

counts_in_step :
    (last opcode : ℕ) (a b n left : ℕ)
    → left < n
    → a ≤ b
    → b + 20 * n < 2 ^ 32
    → (add32 a (sig_ops_of true last opcode) ≤ add32 b (sig_ops_of false last opcode))
      × (add32 b (sig_ops_of false last opcode) + 20 * left < 2 ^ 32)
counts_in_step last opcode a b n left h le fits =
    let small = sig_ops_of_le last opcode in (omega arith, omega arith)

-- Counted accurately, a script of less than 2^32 / 20 bytes has no more signature operations than
-- when every multisig counts for 20.
pub accurate-le-legacy :
    (script : Bytes)
    → 20 * length script < 2 ^ 32
    → get_sig_op_count true script ≤ get_sig_op_count false script
unfolding get_sig_op_count
accurate-le-legacy script h =
    run_sim (sig_op_loop true) (sig_op_loop false) Counted (λ a b. a ≤ b)
      (record {
        step = λ opcode b rest n s t lt p.
            let x = counts_in_step t.1 opcode s.0 t.0 n (length rest) lt p.1 p.2 in
            rw (p.0) (refl, x.0, x.1);
        bad = λ n s t p. p.1;
        finish = λ n s t p. p.1;
      })
      script (0, op_invalidopcode) (0, op_invalidopcode) (refl, omega arith, omega arith)
