-- ===== src/Script/Opcode/Push.antt =====
-- Opcode values of `enum opcodetype`, src/script.h: push value.
use build_env_jenkins.Common.{ℕ}

-- push value
abbrev pub op_0 : ℕ
op_0 = 0x00

abbrev pub op_false : ℕ
op_false = 0x00

abbrev pub op_pushdata1 : ℕ
op_pushdata1 = 0x4c

abbrev pub op_pushdata2 : ℕ
op_pushdata2 = 0x4d

abbrev pub op_pushdata4 : ℕ
op_pushdata4 = 0x4e

abbrev pub op_1negate : ℕ
op_1negate = 0x4f

abbrev pub op_reserved : ℕ
op_reserved = 0x50

abbrev pub op_1 : ℕ
op_1 = 0x51

abbrev pub op_true : ℕ
op_true = 0x51

abbrev pub op_2 : ℕ
op_2 = 0x52

abbrev pub op_3 : ℕ
op_3 = 0x53

abbrev pub op_4 : ℕ
op_4 = 0x54

abbrev pub op_5 : ℕ
op_5 = 0x55

abbrev pub op_6 : ℕ
op_6 = 0x56

abbrev pub op_7 : ℕ
op_7 = 0x57

abbrev pub op_8 : ℕ
op_8 = 0x58

abbrev pub op_9 : ℕ
op_9 = 0x59

abbrev pub op_10 : ℕ
op_10 = 0x5a

abbrev pub op_11 : ℕ
op_11 = 0x5b

abbrev pub op_12 : ℕ
op_12 = 0x5c

abbrev pub op_13 : ℕ
op_13 = 0x5d

abbrev pub op_14 : ℕ
op_14 = 0x5e

abbrev pub op_15 : ℕ
op_15 = 0x5f

abbrev pub op_16 : ℕ
op_16 = 0x60
