-- ===== src/Script/Ops.antt =====
-- The cases of the switch of `EvalScript`, src/script.cpp.
pub mod Stack
pub mod Control
pub mod Numeric
pub mod Crypto
