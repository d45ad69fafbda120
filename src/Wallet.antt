-- ===== src/Wallet.antt =====
-- The wallet of src/wallet.cpp: the choice of the coins that a payment spends.
pub mod Coins
pub mod Payment
