-- ===== src/Script/FindAndDelete.antt =====
-- `CScript::FindAndDelete` of src/script.h.
pub mod Laws
use build_env_jenkins.Common.{
  ℕ, zero, suc, ◌+◌, ◌-◌, Bytes, [], ◌∷◌, ◌++◌, Bool, true, false, length, take, drop, ◌==◌, ◌&&◌,
}
use build_env_jenkins.Script.GetOp.{fetched, refused, get_op}

-- `end() - pc >= b.size() && memcmp(&pc[0], &b[0], b.size()) == 0`
unfoldable pub starts_with : Bytes → Bytes → Bool
starts_with [] pc = true
starts_with (x ∷ b) [] = false
starts_with (x ∷ b) (y ∷ pc) = x == y && starts_with b pc

abbrev pub keep : Bytes → Bytes × ℕ → Bytes × ℕ
keep kept (script, found) = (kept ++ script, found)

abbrev pub count : Bytes × ℕ → Bytes × ℕ
count (script, found) = (script, found + 1)

-- One round from `pc`: erase a copy of `b` and stay, or step over an instruction. The result is
-- the script from `pc` on, and the number of copies erased.
abbrev pub find_round : (Bytes → Bytes × ℕ) → Bytes → Bytes → Bytes × ℕ
find_round next b pc = elim (starts_with b pc) [
  | true ↦ count (next (drop (length b) pc))
  | false ↦ elim (get_op pc) [
    | refused _ ↦ (pc, 0)
    | fetched _ _ rest ↦ keep (take (length pc - length rest) pc) (next rest)
  ]
]

unfoldable pub find_loop : ℕ → Bytes → Bytes → Bytes × ℕ
find_loop zero b pc = (pc, 0)
find_loop (suc fuel) b pc = find_round (find_loop fuel b) b pc

-- Each round erases a byte at least or steps over one.
unfoldable pub find_and_delete : Bytes → Bytes → Bytes × ℕ
find_and_delete [] script = (script, 0)
find_and_delete (x ∷ b) script = find_loop (suc (length script)) (x ∷ b) script
