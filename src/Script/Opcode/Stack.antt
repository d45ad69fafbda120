-- ===== src/Script/Opcode/Stack.antt =====
-- Opcode values of `enum opcodetype`, src/script.h: stack ops, splice ops, bit logic.
use build_env_jenkins.Common.{ℕ}

-- stack ops
abbrev pub op_toaltstack : ℕ
op_toaltstack = 0x6b

abbrev pub op_fromaltstack : ℕ
op_fromaltstack = 0x6c

abbrev pub op_2drop : ℕ
op_2drop = 0x6d

abbrev pub op_2dup : ℕ
op_2dup = 0x6e

abbrev pub op_3dup : ℕ
op_3dup = 0x6f

abbrev pub op_2over : ℕ
op_2over = 0x70

abbrev pub op_2rot : ℕ
op_2rot = 0x71

abbrev pub op_2swap : ℕ
op_2swap = 0x72

abbrev pub op_ifdup : ℕ
op_ifdup = 0x73

abbrev pub op_depth : ℕ
op_depth = 0x74

abbrev pub op_drop : ℕ
op_drop = 0x75

abbrev pub op_dup : ℕ
op_dup = 0x76

abbrev pub op_nip : ℕ
op_nip = 0x77

abbrev pub op_over : ℕ
op_over = 0x78

abbrev pub op_pick : ℕ
op_pick = 0x79

abbrev pub op_roll : ℕ
op_roll = 0x7a

abbrev pub op_rot : ℕ
op_rot = 0x7b

abbrev pub op_swap : ℕ
op_swap = 0x7c

abbrev pub op_tuck : ℕ
op_tuck = 0x7d

-- splice ops
abbrev pub op_cat : ℕ
op_cat = 0x7e

abbrev pub op_substr : ℕ
op_substr = 0x7f

abbrev pub op_left : ℕ
op_left = 0x80

abbrev pub op_right : ℕ
op_right = 0x81

abbrev pub op_size : ℕ
op_size = 0x82

-- bit logic
abbrev pub op_invert : ℕ
op_invert = 0x83

abbrev pub op_and : ℕ
op_and = 0x84

abbrev pub op_or : ℕ
op_or = 0x85

abbrev pub op_xor : ℕ
op_xor = 0x86

abbrev pub op_equal : ℕ
op_equal = 0x87

abbrev pub op_equalverify : ℕ
op_equalverify = 0x88

abbrev pub op_reserved1 : ℕ
op_reserved1 = 0x89

abbrev pub op_reserved2 : ℕ
op_reserved2 = 0x8a
