-- ===== src/Base58/Address.antt =====
-- `CBase58Data`, `CBitcoinAddress` and `CBitcoinSecret` of src/base58.h. Each operation that changes
-- an object returns the object that it leaves.
pub mod RoundTrip
use build_env_jenkins.Common.{
  ℕ, ◌+◌, Bytes, List, [], ◌∷◌, ◌++◌, Bool, true, false, not, Option, none, some, length, take,
  get_or, ◌==◌, if◌then◌else◌, ◌&&◌, ◌||◌,
}
use build_env_jenkins.OpenSsl.{OpenSsl}
use build_env_jenkins.Script.Solver.{TxDestination, no_destination, key_id, script_id}
use build_env_jenkins.Base58.{encode_base58_check, decode_base58_check}

pub record Base58Data : Type 0 where
  pub n_version : ℕ
  pub vch_data : Bytes

-- `CBase58Data()`, and what a failed `SetString` leaves.
abbrev pub cleared : Base58Data
cleared = record { n_version = 0; vch_data = [] }

-- The end of `SetString`, after the check.
abbrev pub from_bytes : Bytes → Bool × Base58Data
from_bytes [] = (false, cleared)
from_bytes (x ∷ v) = (true, record { n_version = x; vch_data = v })

-- `CBase58Data::SetString`
unfoldable pub set_string : OpenSsl → Bytes → Bool × Base58Data
set_string ssl s = elim (decode_base58_check ssl s) [ none ↦ from_bytes [] | some v ↦ from_bytes v ]

-- `CBase58Data::ToString`
unfoldable pub to_string : OpenSsl → Base58Data → Bytes
to_string ssl d = encode_base58_check ssl (d.n_version ∷ d.vch_data)

abbrev pub pubkey_address : Bool → ℕ
pubkey_address test_net = if test_net then 111 else 43

abbrev pub script_address : Bool → ℕ
script_address test_net = if test_net then 196 else 8

-- `CBitcoinAddress::Set`, with `CBitcoinAddressVisitor`; the first argument is `fTestNet`.
unfoldable pub set_address : Bool → TxDestination → Base58Data → Bool × Base58Data
set_address test_net no_destination d = (false, d)
set_address test_net (key_id id) d =
    (true, record { n_version = pubkey_address test_net; vch_data = id })
set_address test_net (script_id id) d =
    (true, record { n_version = script_address test_net; vch_data = id })

abbrev same_net : Bool → Bool → Bool
same_net a b = if a then b else not b

-- `CBitcoinAddress::IsValid`
unfoldable pub is_valid : Bool → Base58Data → Bool
is_valid test_net d =
    if d.n_version == 43 || d.n_version == 8
    then same_net false test_net && (length d.vch_data == 20)
    else if d.n_version == 111 || d.n_version == 196
    then same_net true test_net && (length d.vch_data == 20)
    else false

-- `CBitcoinAddress::Get`
unfoldable pub get_destination : Bool → Base58Data → TxDestination
get_destination test_net d =
    if not (is_valid test_net d)
    then no_destination
    else if d.n_version == 43 || d.n_version == 111
    then key_id (take 20 d.vch_data)
    else if d.n_version == 8 || d.n_version == 196
    then script_id (take 20 d.vch_data)
    else no_destination

-- `CBitcoinAddress::GetKeyID`; `none` is false.
unfoldable pub get_key_id : Bool → Base58Data → Option Bytes
get_key_id test_net d =
    if not (is_valid test_net d)
    then none
    else if d.n_version == 43 || d.n_version == 111
    then some (take 20 d.vch_data)
    else none

-- `CBitcoinAddress::IsScript`
unfoldable pub is_script : Bool → Base58Data → Bool
is_script test_net d =
    if not (is_valid test_net d) then false else d.n_version == 8 || d.n_version == 196

-- `CBitcoinSecret::SetSecret`, for a secret of the 32 bytes that it asserts.
unfoldable pub set_secret : Bool → Bytes → Bool → Base58Data
set_secret test_net secret compressed = record {
  n_version = 128 + pubkey_address test_net;
  vch_data = if compressed then secret ++ 1 ∷ [] else secret;
}

-- `CBitcoinSecret::GetSecret`, for data that holds a secret.
unfoldable pub get_secret : Base58Data → Bytes × Bool
get_secret d = (take 32 d.vch_data, length d.vch_data == 33)

-- `CBitcoinSecret::IsValid`
abbrev pub is_valid_secret : Bool → Base58Data → Bool
is_valid_secret test_net d =
    let size_ok =
      length d.vch_data == 32 || (length d.vch_data == 33 && (get_or d.vch_data 32 0 == 1)) in
    if d.n_version == 171
    then same_net false test_net && size_ok
    else if d.n_version == 239
    then same_net true test_net && size_ok
    else false

-- `CBitcoinSecret::SetString`
unfoldable pub set_secret_string : OpenSsl → Bool → Bytes → Bool × Base58Data
set_secret_string ssl test_net s =
    let (done, d) = set_string ssl s in (done && is_valid_secret test_net d, d)
