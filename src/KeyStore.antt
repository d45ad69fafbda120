-- ===== src/KeyStore.antt =====
-- The stores of keys: src/keystore.h and src/keystore.cpp, with the parts of `CKey` (src/key.cpp)
-- and `CCrypter` (src/crypter.cpp) that they call. The callbacks to the user interface are left out.
pub mod Consistent
pub mod Encrypting
pub mod Reachable
pub mod Sealed
use build_env_jenkins.Common.{
  ℕ, Bytes, List, [], ◌∷◌, Bool, true, false, Option, none, some, length, from_le, lookup, put,
  bytes_eq, ◌==◌, if◌then◌else◌, ◌||◌,
}
use build_env_jenkins.OpenSsl.{OpenSsl}
use build_env_jenkins.Script.SigHash.{hash, hash160}

-- `CKey`: the secret, if there is one, and `fCompressedPubKey`.
pub record Key : Type 0 where
  pub secret : Bytes
  pub compressed : Bool

-- `Reset`
abbrev pub reset : Key
reset = record { secret = []; compressed = false }

-- `SetPubKey`, which leaves no secret.
unfoldable pub set_pub_key : OpenSsl → Bytes → Key → Key
set_pub_key ssl pub_key k =
    if ssl.check_key pub_key
    then record { secret = []; compressed = length pub_key == 33 || k.compressed }
    else reset

-- `SetSecret`; `none` is the exception.
unfoldable pub set_secret : Bytes → Bool → Key → Option Key
set_secret secret compressed k =
    if length secret == 32
    then some (record { secret = secret; compressed = compressed || k.compressed })
    else none

-- `GetPubKey`
unfoldable pub get_pub_key : OpenSsl → Key → Bytes
get_pub_key ssl k = ssl.public_key k.secret k.compressed

-- `CPubKey::GetID` and `CScript::GetID`, by the order of `uint160`, which is that of its number.
unfoldable pub get_id : OpenSsl → Bytes → ℕ
get_id ssl b = from_le (hash160 ssl b)

-- `EncryptSecret` and `DecryptSecret`: `SetKey` wants a key of 32 bytes, as the hash is.
unfoldable pub encrypt_secret : OpenSsl → Bytes → Bytes → Bytes → Option Bytes
encrypt_secret ssl master_key plain iv =
    if length master_key == 32 then ssl.aes_encrypt master_key iv plain else none

unfoldable pub decrypt_secret : OpenSsl → Bytes → Bytes → Bytes → Option Bytes
decrypt_secret ssl master_key coded iv =
    if length master_key == 32 then ssl.aes_decrypt master_key iv coded else none

-- `CCryptoKeyStore`, with the global `fWalletUnlockMintOnly`.
pub record KeyStore : Type 0 where
  pub map_keys : List (ℕ × (Bytes × Bool))
  pub map_scripts : List (ℕ × Bytes)
  pub map_crypted_keys : List (ℕ × (Bytes × Bytes))
  pub master_key : Bytes
  pub use_crypto : Bool
  pub unlock_mint_only : Bool

abbrev pub empty_store : KeyStore
empty_store = record {
  map_keys = [];
  map_scripts = [];
  map_crypted_keys = [];
  master_key = [];
  use_crypto = false;
  unlock_mint_only = false;
}

-- What a call that may throw does: its result, or the exception, and the store that it leaves.
pub data Outcome : Type 0 where
  returned : Bool → KeyStore → Outcome
  thrown : KeyStore → Outcome

-- `SetCrypted`
unfoldable pub set_crypted : KeyStore → Bool × KeyStore
set_crypted s =
    if s.use_crypto
    then (true, s)
    else elim s.map_keys [ [] ↦ (true, record s { use_crypto = true }) | k ∷ ks ↦ (false, s) ]

-- `IsLocked`
unfoldable pub is_locked : KeyStore → Bool
is_locked s = if s.use_crypto then length s.master_key == 0 else false

-- `Lock`
unfoldable pub lock : KeyStore → Bool × KeyStore
lock s =
    let (ok, t) = set_crypted s in
    if ok then (true, record t { master_key = []; unlock_mint_only = false }) else (false, t)

-- The body of the loop of `Unlock`, which ends at the first key; `none` is an exception.
unfoldable pub opens : OpenSsl → Bytes → Bytes × Bytes → Option Bool
opens ssl master_key (pub_key, coded) =
    elim (decrypt_secret ssl master_key coded (hash ssl pub_key)) [
      | none ↦ some false
      | some secret ↦
          if length secret == 32
          then elim (set_secret secret false (set_pub_key ssl pub_key reset)) [
            | none ↦ none
            | some key ↦ some (bytes_eq (get_pub_key ssl key) pub_key)
          ]
          else some false
    ]

unfoldable pub opens_first : OpenSsl → Bytes → List (ℕ × (Bytes × Bytes)) → Option Bool
opens_first ssl master_key [] = some true
opens_first ssl master_key ((id, entry) ∷ keys) = opens ssl master_key entry

-- `Unlock`
unfoldable pub unlock : OpenSsl → Bytes → KeyStore → Outcome
unlock ssl master_key s =
    let (ok, t) = set_crypted s in
    if ok
    then elim (opens_first ssl master_key t.map_crypted_keys) [
      | none ↦ thrown t
      | some true ↦ returned true (record t { master_key = master_key })
      | some false ↦ returned false t
    ]
    else returned false t

-- `AddCryptedKey`
unfoldable pub add_crypted_key : OpenSsl → Bytes → Bytes → KeyStore → Bool × KeyStore
add_crypted_key ssl pub_key coded s =
    let (ok, t) = set_crypted s in
    if ok
    then (
      true,
      record t { map_crypted_keys = put (get_id ssl pub_key) (pub_key, coded) t.map_crypted_keys },
    )
    else (false, t)

-- `CBasicKeyStore::AddKey`
unfoldable pub add_basic_key : OpenSsl → Key → KeyStore → KeyStore
add_basic_key ssl key s = record s {
  map_keys = put (get_id ssl (get_pub_key ssl key)) (key.secret, key.compressed) s.map_keys;
}

-- The end of `AddKey`, by what `EncryptSecret` has given.
unfoldable pub add_encrypted : OpenSsl → Bytes → Option Bytes → KeyStore → Bool × KeyStore
add_encrypted ssl pub_key none s = (false, s)
add_encrypted ssl pub_key (some coded) s = add_crypted_key ssl pub_key coded s

-- `AddKey`
unfoldable pub add_key : OpenSsl → Key → KeyStore → Bool × KeyStore
add_key ssl key s =
    let pub_key = get_pub_key ssl key in
    if s.use_crypto
    then if is_locked s
      then (false, s)
      else add_encrypted ssl pub_key (encrypt_secret ssl s.master_key key.secret (hash ssl pub_key))
          s
    else (true, add_basic_key ssl key s)

-- `AddCScript`
unfoldable pub add_script : OpenSsl → Bytes → KeyStore → KeyStore
add_script ssl script s = record s { map_scripts = put (get_id ssl script) script s.map_scripts }

-- The body of the loop of `EncryptKeys`, for one entry of `mapKeys`.
unfoldable pub encrypt_key : OpenSsl → Bytes → Option Key → KeyStore → Outcome
encrypt_key ssl master_key none s = thrown s
encrypt_key ssl master_key (some key) s =
    let pub_key = get_pub_key ssl key in
    let (ok, t) =
      add_encrypted ssl pub_key (encrypt_secret ssl master_key key.secret (hash ssl pub_key)) s in
    returned ok t

unfoldable pub encrypt_loop : OpenSsl → Bytes → List (ℕ × (Bytes × Bool)) → KeyStore → Outcome
encrypt_loop ssl master_key [] s = returned true s
encrypt_loop ssl master_key ((id, (secret, compressed)) ∷ keys) s =
    elim (encrypt_key ssl master_key (set_secret secret compressed reset) s) [
      | thrown t ↦ thrown t
      | returned false t ↦ returned false t
      | returned true t ↦ encrypt_loop ssl master_key keys t
    ]

-- `mapKeys.clear()`, where the loop has come to its end.
unfoldable pub clear_keys : Outcome → Outcome
clear_keys (returned true s) = returned true (record s { map_keys = [] })
clear_keys (returned false s) = returned false s
clear_keys (thrown s) = thrown s

-- `EncryptKeys`
unfoldable pub encrypt_keys : OpenSsl → Bytes → KeyStore → Outcome
encrypt_keys ssl master_key s = if s.use_crypto then returned false s else elim s.map_crypted_keys [
  | k ∷ ks ↦ returned false s
  | [] ↦ clear_keys (encrypt_loop ssl master_key s.map_keys (record s { use_crypto = true }))
]

-- What `GetKey` does: a key, `false`, or an exception.
pub data Found : Type 0 where
  found : Key → Found
  missing failed : Found

abbrev pub found_or_failed : Option Key → Found
found_or_failed none = failed
found_or_failed (some key) = found key

-- `GetKey` into a fresh key.
unfoldable pub get_basic_key : ℕ → KeyStore → Found
get_basic_key id s = elim (lookup id s.map_keys) [
  | none ↦ missing
  | some (secret, compressed) ↦ found_or_failed (set_secret secret compressed reset)
]

unfoldable pub get_crypted_key : OpenSsl → ℕ → KeyStore → Found
get_crypted_key ssl id s = elim (lookup id s.map_crypted_keys) [
  | none ↦ missing
  | some (pub_key, coded) ↦ elim (decrypt_secret ssl s.master_key coded (hash ssl pub_key)) [
    | none ↦ missing
    | some secret ↦
        if length secret == 32
        then found_or_failed (set_secret secret false (set_pub_key ssl pub_key reset))
        else missing
  ]
]

unfoldable pub get_key : OpenSsl → ℕ → KeyStore → Found
get_key ssl id s = if s.use_crypto then get_crypted_key ssl id s else get_basic_key id s

-- `HaveKey`
unfoldable pub have_key : ℕ → KeyStore → Bool
have_key id s =
    if s.use_crypto
    then elim (lookup id s.map_crypted_keys) [ none ↦ false | some e ↦ true ]
    else elim (lookup id s.map_keys) [ none ↦ false | some e ↦ true ]

-- `GetPubKey`; `none` where it returns false, and where `GetKey` throws.
unfoldable pub get_stored_pub_key : OpenSsl → ℕ → KeyStore → Option Bytes
get_stored_pub_key ssl id s =
    if s.use_crypto
    then elim (lookup id s.map_crypted_keys) [ none ↦ none | some (pub_key, coded) ↦ some pub_key ]
    else elim (get_basic_key id s) [ found key ↦ some (get_pub_key ssl key) | _ ↦ none ]

-- `GetCScript`
unfoldable pub get_script : ℕ → KeyStore → Option Bytes
get_script id s = lookup id s.map_scripts
