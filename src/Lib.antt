-- ===== src/Lib.antt =====
-- A verification library for the daemon of Jackpotcoin, a proof-of-work and proof-of-stake coin
-- whose code is in src/ of the repository. It models the part that decides who may spend an
-- output: the script language, with the encodings and the hashes that it stands on, the checks
-- that a transaction passes by itself, the checks of the outputs that it takes over, the merkle
-- tree that binds transactions to their block, the addresses that name an output, the store of the
-- keys that spend it, the choice of the coins for a payment, the count of the blocks of a chain by
-- their kind, and the bounded set of what a node knows.
--
-- How the parts interact. A transaction (src/main.h) spends outputs. Each input carries a script,
-- and each output has one that the input must satisfy. `VerifyScript` (src/script.cpp) runs both
-- on one stack with `EvalScript`, which reads the bytes of a script with `CScript::GetOp2`
-- (src/script.h) and takes numbers from the stack through `CBigNum` (src/bignum.h). The signature
-- opcodes call `CheckSig`, which hashes the transaction with `SignatureHash`, written with
-- src/serialize.h, and keeps the signatures that it has verified in a `CSignatureCache`.
-- `CTransaction::CheckTransaction` (src/main.cpp) looks at a transaction before any script is run.
-- `FetchInputs` looks up the outputs that it takes and `ConnectInputs` checks them with
-- `VerifySignature` and marks them as spent. `IsStandard`, `Solver` and `ExtractDestination` read
-- a script against the templates of the scripts that the wallet makes with
-- `CScript::SetDestination`. A user sees a destination as a `CBitcoinAddress` (src/base58.h), and
-- the wallet looks up its key in a `CCryptoKeyStore` (src/keystore.cpp), with which
-- `SignSignature` signs an input. `CWallet::SelectCoins` (src/wallet.cpp) chooses the outputs that
-- a payment spends.
--
-- Which file models which part:
--   Common               names of the library passed on, tests, lists, byte strings, integers
--   OpenSsl              the functions of OpenSSL that are called, as parameters
--   Bignum               `setvch`, `getvch` and `getint` of src/bignum.h, and the MPI format
--   Serialize            compact sizes and vectors of src/serialize.h
--   Serialize/Reader     the reading of vectors, of src/serialize.h
--   Transaction          `COutPoint`, `CTxIn`, `CTxOut`, `CTransaction` of src/main.h
--   Script/Opcode        `opcodetype` of src/script.h
--   Script/Builder       `operator<<`, `EncodeOP_N`, `DecodeOP_N` of src/script.h, and `PushAll`
--   Script/GetOp         `GetOp2` of src/script.h
--   Script/Walk          the loop over the instructions of a script, which seven functions repeat
--   Script/FindAndDelete `FindAndDelete` of src/script.h
--   Script/Scan          `IsPushOnly`, `HasCanonicalPushes`, `GetSigOpCount`, `IsPayToScriptHash`
--   Script/SigHash       `SignatureHash`, and `Hash` and `Hash160` of src/util.h
--   Script/SigCache      `CSignatureCache`
--   Script/CheckSig      `CheckSig`, with `SetPubKey` and `Verify` of src/key.cpp
--   Script/Machine       the local variables of `EvalScript` as a record
--   Script/Cast          `CastToBool` and `CastToBigNum`
--   Script/Ops           the cases of the switch of `EvalScript`, a function for each
--   Script/Switch        the switch, from an opcode to its case
--   Script/Eval          `EvalScript`
--   Script/Verify        `VerifyScript`
--   Script/Solver        `Solver`, `ExtractDestination`, `IsStandard`, `SetDestination`
--   Transaction/Check    `CheckTransaction` of src/main.cpp, `GetValueOut` of src/main.h
--   Merkle               `BuildMerkleTree`, `GetMerkleBranch`, `CheckMerkleBranch` of src/main.h
--   Base58               `EncodeBase58`, `DecodeBase58` and their checked forms, of src/base58.h
--   Base58/Address       `CBase58Data`, `CBitcoinAddress`, `CBitcoinSecret`
--   KeyStore             `CBasicKeyStore`, `CCryptoKeyStore` of src/keystore.h and src/keystore.cpp, with
--                        the calls of src/key.cpp and src/crypter.cpp that they make
--   Wallet/Coins         `SelectCoinsMinConf`, `ApproximateBestSubset` of src/wallet.cpp
--   Wallet/Payment       `AvailableCoins`, `SelectCoins` of src/wallet.cpp, with src/coincontrol.h
--   Chain/PowHeight      `GetPowHeight`, `GetPosHeight`, `CountPowDelta` of src/main.cpp
--   Spending             `CTxIndex`, `GetMinFee` of src/main.cpp, `VerifySignature` of src/script.cpp
--   Spending/Fetch       `FetchInputs` of src/main.cpp
--   Spending/Connect     `ConnectInputs` of src/main.cpp
--   Spending/Disconnect  `DisconnectInputs`, and how `ConnectBlock` writes changes, of src/main.cpp
--   Spending/Standard    `IsStandard`, `AreInputsStandard`, `GetValueIn` of src/main.cpp
--   Signing              `Sign1`, `SignN`, `Solver` over a store, `SignSignature` of src/script.cpp
--   Signing/Mine         `IsMine`, `ExtractDestinations`, `ExtractAffectedKeys` of src/script.cpp
--   Signing/Combine      `CombineSignatures` of src/script.cpp
--   Chain/Target         `SetCompact`, `GetCompact` of src/bignum.h, `GetNextTargetRequired`,
--                        `ComputeMaxBits`, `CheckProofOfWork` of src/main.cpp
--   MemoryPool           `CTxMemPool` of src/main.h and src/main.cpp
--   MruSet               `mruset` of src/mruset.h, which the network code uses for what it has sent
--   Tests                the properties at concrete inputs, and runs of the definitions
--
-- Conventions. A byte is a natural number below 256, and `std::vector<unsigned char>` and
-- `uint256` are lists of bytes, a `uint256` with its lowest byte first as it is stored. A stack is
-- a list with its top first, where the code has its top at the back. A position in a script is the
-- list of the bytes that are left. What the code does by `return false` and what it does by
-- throwing, which `EvalScript` catches, is the same result. A machine integer keeps the reduction
-- that the code makes (`add32`, `get_int`). Where the stack that the code reads may be empty, the
-- read is an `Option`, with `none` for behaviour that C++ leaves undefined. The reads of the
-- merkle tree give the empty string out of range.
--
-- Fuel. The loop over the instructions of a script has the length of the script and one as its
-- fuel. Each turn reads a byte at least, so it is enough. The loop of `FindAndDelete` has the same
-- fuel for the same reason. The loops over the levels of a merkle tree have the number of
-- transactions as their fuel, since each turn but the last makes the level shorter, and the loop
-- over the pairs of a level has the size of the level. The loop that writes a number in base 58
-- has two digits for each byte as its fuel, and 58 * 58 is more than 256. `IsMine` goes on to a
-- script of the store where it meets a script hash, and its fuel is the number of scripts that it
-- may look at. A vector of bytes is read in blocks of 5,000,000 bytes, and the fuel is one more
-- than the whole blocks that it has.
--
-- Parameters. The digests, the conversions between `BIGNUM` and bytes, the check of a public key
-- and the verification of a signature are functions of OpenSSL, which is not part of the
-- repository. They are fields of the record `OpenSsl`. Some theorems ask for what these functions
-- are documented to do: `HasMpi` for the MPI format, `HasSha256` for the size of a digest,
-- `HasAes` for the decryption of what was encrypted, `HasPublicKeys` for the sizes of public keys,
-- `HasEcdsa` for the verification of what was signed, `HasNumBytes` for the size of a number. The
-- functions of the tests have them all. What the database, the disk and the memory pool hold is
-- the record `Store`, and what `ConnectInputs` reads of the node, with the results of `GetCoinAge`
-- and `GetProofOfStakeReward`, the record `Environment`. `DisconnectInputs` works on the indexes
-- of the database as a map, whose writes are taken to succeed. What `CTxMemPool::accept` reads of
-- the node, and what the rate limiter of free transactions makes of one, is the record `Node`. The
-- choice of coins calls `random_shuffle`, `sort` and `rand` of the C++ library: they are fields of
-- the record `Choices`, and `IsFair` says that the first two only change the order.
--
-- Maps. A `std::map` is a list of keys and values in the order of its keys. An identifier
-- (`uint160`) is the number that its bytes stand for, lowest first, which has the order of
-- `uint160`. So is the key of an outpoint, by its hash and then its index.
--
-- Not modelled. The cases of the opcodes that `EvalScript` refuses before its switch (`OP_CAT` to
-- `OP_RIGHT`, `OP_INVERT` to `OP_XOR`, `OP_2MUL`, `OP_2DIV`, `OP_MUL` to `OP_RSHIFT`) cannot run.
-- The lock of the signature cache, the log lines and the names of opcodes for printing have no
-- effect on a result. The rest of the wallet, the rewards of blocks and the order in which blocks
-- are connected, the kernel of the proof of stake, the network, the remote calls and the user
-- interface are other components.
pub mod Common
pub mod OpenSsl
pub mod Bignum
pub mod Serialize
pub mod Transaction
pub mod Script
pub mod Merkle
pub mod MruSet
pub mod Spending
pub mod MemoryPool
pub mod Chain
pub mod Wallet
pub mod Base58
pub mod KeyStore
pub mod Signing
mod Tests
