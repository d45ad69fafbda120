-- ===== src/Script.antt =====
-- The script system: src/script.h and src/script.cpp.
pub mod Opcode
pub mod Builder
pub mod GetOp
pub mod Walk
pub mod FindAndDelete
pub mod SigHash
pub mod SigCache
pub mod CheckSig
pub mod Machine
pub mod Cast
pub mod Ops
pub mod Switch
pub mod Eval
pub mod Scan
pub mod Verify
pub mod Solver
