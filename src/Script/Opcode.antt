-- ===== src/Script/Opcode.antt =====
-- `enum opcodetype` of src/script.h: each opcode is the byte that stands for it in a script.
mod Push
mod Control
mod Stack
mod Numeric
mod Crypto
pub use Push.*
pub use Control.*
pub use Stack.*
pub use Numeric.*
pub use Crypto.*
