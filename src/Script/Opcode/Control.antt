-- ===== src/Script/Opcode/Control.antt =====
-- Opcode values of `enum opcodetype`, src/script.h: control.
use build_env_jenkins.Common.{ℕ}

-- control
abbrev pub op_nop : ℕ
op_nop = 0x61

abbrev pub op_ver : ℕ
op_ver = 0x62

abbrev pub op_if : ℕ
op_if = 0x63

abbrev pub op_notif : ℕ
op_notif = 0x64

abbrev pub op_verif : ℕ
op_verif = 0x65

abbrev pub op_vernotif : ℕ
op_vernotif = 0x66

abbrev pub op_else : ℕ
op_else = 0x67

abbrev pub op_endif : ℕ
op_endif = 0x68

abbrev pub op_verify : ℕ
op_verify = 0x69

abbrev pub op_return : ℕ
op_return = 0x6a
