-- ===== src/Tests/KeyStoreFacts.antt =====
-- The properties of the stores of keys at concrete inputs, and runs.
use build_env_jenkins.Common.{
  ℕ, suc, ◌≡◌, refl, sym, ap, Bytes, [], ◌∷◌, Bool, true, false, from_le, to_le, length-to_le,
}
use build_env_jenkins.Script.SigHash.{hash160}
use build_env_jenkins.KeyStore.{
  Key, set_secret, get_pub_key, get_id, encrypt_secret, KeyStore, empty_store, returned, clear_keys,
  set_crypted, is_locked, lock, unlock, add_key, encrypt_key, encrypt_loop, encrypt_keys, get_key,
  missing, add_basic_key, get_basic_key, found, add_encrypted, add_crypted_key,
}
use build_env_jenkins.KeyStore.Consistent.{IsConsistent, adds, locks, IsReachable, starts, follows}
use build_env_jenkins.KeyStore.Reachable.{Reachable-IsConsistent, locked_refuses}
use build_env_jenkins.KeyStore.Sealed.{HasAes, HasPublicKeys, get_key-encrypted}
use build_env_jenkins.Tests.Toy.{toy, toy_public_key}

toy-HasAes : HasAes toy
toy-HasAes = record { decrypts = λ key iv plain coded e. sym e }

pub toy-HasPublicKeys : HasPublicKeys toy
toy-HasPublicKeys = record {
  readable = readable;
  short = λ secret. ap suc (length-to_le 32 (from_le secret));
  long = λ secret. ap suc (length-to_le 64 (from_le secret));
}
  where
    readable :
        (secret : Bytes) (compressed : Bool)
        → toy.check_key (toy_public_key secret compressed) ≡ true
    readable secret true = refl
    readable secret false = refl

abbrev first_key : Key
first_key = record { secret = to_le 32 5; compressed = true }

abbrev one_key : KeyStore
one_key = (add_key toy first_key empty_store).1

abbrev wallet_key : Bytes
wallet_key = to_le 32 99

one_key-IsReachable : IsReachable toy one_key
one_key-IsReachable = follows starts (adds first_key (length-to_le 32 5))

Reachable-IsConsistent_example : IsConsistent toy (lock one_key).1
Reachable-IsConsistent_example = Reachable-IsConsistent toy (follows one_key-IsReachable locks)

-- The key that was added is found.
added : get_key toy (get_id toy (get_pub_key toy first_key)) one_key ≡ found first_key
unfolding get_key get_id get_pub_key add_key hash160 add_basic_key get_basic_key set_secret
added = refl

-- The store of one key, encrypted.
abbrev one_crypted : KeyStore
one_crypted = record empty_store {
  use_crypto = true;
  map_crypted_keys =
      (get_id toy (get_pub_key toy first_key), (get_pub_key toy first_key, to_le 32 5)) ∷ [];
}

encrypted : encrypt_keys toy wallet_key one_key ≡ returned true one_crypted
unfolding encrypt_keys clear_keys encrypt_loop encrypt_key add_key add_basic_key set_secret
    encrypt_secret add_encrypted add_crypted_key set_crypted get_id get_pub_key hash160
encrypted = refl

get_key-encrypted_example :
    (u : KeyStore) × (unlock toy wallet_key one_crypted ≡ returned true u)
    × ((id : ℕ) → get_key toy id u ≡ get_key toy id one_key)
get_key-encrypted_example =
    get_key-encrypted toy toy-HasAes toy-HasPublicKeys wallet_key one_key
      (Reachable-IsConsistent toy one_key-IsReachable) encrypted

one_crypted-locked : is_locked one_crypted ≡ true
unfolding is_locked
one_crypted-locked = refl

locked_refuses_example :
    (get_key toy (get_id toy (get_pub_key toy first_key)) one_crypted ≡ missing)
    × (add_key toy first_key one_crypted ≡ (false, one_crypted))
locked_refuses_example =
    locked_refuses toy one_crypted (get_id toy (get_pub_key toy first_key)) first_key
      one_crypted-locked
