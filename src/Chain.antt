-- ===== src/Chain.antt =====
-- The chain of blocks, as src/main.cpp reads it from a `CBlockIndex` back to the genesis block.
pub mod PowHeight
pub mod Target
