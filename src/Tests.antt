-- ===== src/Tests.antt =====
-- The properties at concrete inputs where their hypotheses hold, and tests of the definitions.
mod Toy
mod Transfer
mod ScriptRuns
mod ScriptFacts
mod MruSetFacts
mod TransactionFacts
mod MerkleFacts
mod Base58Facts
mod KeyStoreFacts
mod WalletFacts
mod ChainFacts
mod SpendingFacts
mod SigningFacts
mod MemoryPoolFacts
