-- ===== src/Base58/Address/RoundTrip.antt =====
-- Addresses and secrets are read back from their strings.
use build_env_jenkins.Common.{
  ℕ, zero, suc, ◌+◌, ◌^◌, ◌<◌, ◌≡◌, refl, ap, Bytes, IsByte, All, [], ◌∷◌, ◌++◌, Bool, true, false,
  not, length, take, get_or, if◌then◌else◌, All-append, length-append, arith,
}
use build_env_jenkins.OpenSsl.{OpenSsl}
use build_env_jenkins.Bignum.Mpi.{HasMpi}
use build_env_jenkins.Script.Solver.{TxDestination, no_destination, key_id, script_id}
use build_env_jenkins.Base58.Check.{HasSha256, decode_base58_check-encode_base58_check}
use build_env_jenkins.Base58.Address.{
  Base58Data, set_string, to_string, pubkey_address, set_address, is_valid, get_destination,
  set_secret, get_secret, is_valid_secret, set_secret_string,
}

take_all : (n : ℕ) (v : Bytes) → length v ≡ n → take n v ≡ v
take_all zero [] h = refl
take_all zero (x ∷ v) h = absurd (omega (arith, h))
take_all (suc n) [] h = refl
take_all (suc n) (x ∷ v) h = ap (λ u. x ∷ u) (take_all n v (omega (arith, h)))

-- The bytes of a destination that `Set` accepts.
abbrev pub IsAddressable : TxDestination → Type 0
IsAddressable no_destination = ⊥
IsAddressable (key_id id) = All IsByte id × (length id ≡ 20)
IsAddressable (script_id id) = All IsByte id × (length id ≡ 20)

-- A destination of 20 bytes, set as an address, is valid on its own network only, and comes back.
pub get_destination-set_address :
    (test_net : Bool) (dest : TxDestination) (d : Base58Data)
    → IsAddressable dest
    → (is_valid test_net (set_address test_net dest d).1 ≡ true)
      × (is_valid (not test_net) (set_address test_net dest d).1 ≡ false)
      × (get_destination test_net (set_address test_net dest d).1 ≡ dest)
unfolding set_address is_valid get_destination
get_destination-set_address test_net no_destination d h = elim h [ ]
get_destination-set_address true (key_id id) d (bytes, n) =
    rw (n, take_all 20 id n) (refl, refl, refl)
get_destination-set_address false (key_id id) d (bytes, n) =
    rw (n, take_all 20 id n) (refl, refl, refl)
get_destination-set_address true (script_id id) d (bytes, n) =
    rw (n, take_all 20 id n) (refl, refl, refl)
get_destination-set_address false (script_id id) d (bytes, n) =
    rw (n, take_all 20 id n) (refl, refl, refl)

set_address-small :
    (test_net : Bool) (dest : TxDestination) (d : Base58Data)
    → IsAddressable dest
    → ((set_address test_net dest d).1.n_version < 256)
      × All IsByte (set_address test_net dest d).1.vch_data
      × (length (set_address test_net dest d).1.vch_data < 2 ^ 29)
unfolding set_address
set_address-small test_net no_destination d h = elim h [ ]
set_address-small true (key_id id) d (bytes, n) = (omega arith, bytes, omega (arith, n))
set_address-small false (key_id id) d (bytes, n) = (omega arith, bytes, omega (arith, n))
set_address-small true (script_id id) d (bytes, n) = (omega arith, bytes, omega (arith, n))
set_address-small false (script_id id) d (bytes, n) = (omega arith, bytes, omega (arith, n))

set_secret-small :
    (test_net : Bool) (secret : Bytes) (compressed : Bool)
    → All IsByte secret
    → length secret ≡ 32
    → ((set_secret test_net secret compressed).n_version < 256)
      × All IsByte (set_secret test_net secret compressed).vch_data
      × (length (set_secret test_net secret compressed).vch_data < 2 ^ 29)
unfolding set_secret
set_secret-small test_net secret compressed h n =
    (version test_net, (payload compressed).0, (payload compressed).1)
  where
    version : (test_net : Bool) → 128 + pubkey_address test_net < 256
    version true = omega arith
    version false = omega arith

    payload_of : Bool → Bytes
    payload_of compressed = if compressed then secret ++ 1 ∷ [] else secret

    payload :
        (compressed : Bool)
        → All IsByte (payload_of compressed) × (length (payload_of compressed) < 2 ^ 29)
    payload true = (
      All-append IsByte secret (1 ∷ []) h (omega arith, tt),
      omega (arith, length-append secret (1 ∷ []), n),
    )
    payload false = (h, omega (arith, n))

take-more : (n : ℕ) (v : Bytes) (x : ℕ) → length v ≡ n → take n (v ++ x ∷ []) ≡ v
take-more zero [] x h = refl
take-more zero (y ∷ v) x h = absurd (omega (arith, h))
take-more (suc n) [] x h = absurd (omega (arith, h))
take-more (suc n) (y ∷ v) x h = ap (λ u. y ∷ u) (take-more n v x (omega (arith, h)))

get_or-more : (v : Bytes) (x n : ℕ) → length v ≡ n → get_or (v ++ x ∷ []) n 0 ≡ x
get_or-more [] x zero h = refl
get_or-more [] x (suc n) h = absurd (omega (arith, h))
get_or-more (y ∷ v) x zero h = absurd (omega (arith, h))
get_or-more (y ∷ v) x (suc n) h = get_or-more v x n (omega (arith, h))

get_secret-set_secret :
    (test_net : Bool) (secret : Bytes) (compressed : Bool)
    → length secret ≡ 32
    → (is_valid_secret test_net (set_secret test_net secret compressed) ≡ true)
      × (get_secret (set_secret test_net secret compressed) ≡ (secret, compressed))
unfolding set_secret get_secret
get_secret-set_secret test_net secret compressed n = (valid test_net compressed, back compressed)
  where
    more : length (secret ++ 1 ∷ []) ≡ 33
    more = omega (arith, length-append secret (1 ∷ []), n)

    valid :
        (test_net compressed : Bool)
        → is_valid_secret test_net (set_secret test_net secret compressed) ≡ true
    valid true true = rw (more, get_or-more secret 1 32 n)
    valid false true = rw (more, get_or-more secret 1 32 n)
    valid true false = rw n
    valid false false = rw n

    back :
        (compressed : Bool)
        → get_secret (set_secret test_net secret compressed) ≡ (secret, compressed)
    back true = rw (more, take-more 32 secret 1 n)
    back false = rw (n, take_all 32 secret n)

module _ (ssl : OpenSsl) (mpi : HasMpi ssl) (sha : HasSha256 ssl) where
  set_string-to_string :
      (d : Base58Data)
      → d.n_version < 256
      → All IsByte d.vch_data
      → length d.vch_data < 2 ^ 29
      → set_string ssl (to_string ssl d) ≡ (true, d)
  unfolding set_string to_string
  set_string-to_string d h hv n = rw (
    set_string,
    decode_base58_check-encode_base58_check ssl mpi sha (d.n_version ∷ d.vch_data) (h, hv)
        (omega arith),
  )

  -- The string of an address that was set to a key's or a script's 20 bytes is read back as that
  -- address, which is valid on its own network and not on the other one, and gives the destination.
  pub address_string :
      (test_net : Bool) (dest : TxDestination) (d : Base58Data)
      → IsAddressable dest
      → (address : Base58Data) × (set_string ssl (to_string ssl (set_address test_net dest d).1)
          ≡ (true, address))
        × (is_valid test_net address ≡ true)
        × (is_valid (not test_net) address ≡ false)
        × (get_destination test_net address ≡ dest)
  address_string test_net dest d h =
      let (version, bytes, size) = set_address-small test_net dest d h in
      let (valid, invalid, back) = get_destination-set_address test_net dest d h in
      (
        (set_address test_net dest d).1,
        set_string-to_string (set_address test_net dest d).1 version bytes size,
        valid,
        invalid,
        back,
      )

  -- The string of a secret of 32 bytes is read back on its network as that secret, with the mark
  -- whether its public key is compressed.
  pub secret_string :
      (test_net : Bool) (secret : Bytes) (compressed : Bool)
      → All IsByte secret
      → length secret ≡ 32
      → (read : Base58Data) × (set_secret_string ssl test_net
            (to_string ssl (set_secret test_net secret compressed))
          ≡ (true, read))
        × (get_secret read ≡ (secret, compressed))
  unfolding set_secret_string
  secret_string test_net secret compressed h n =
      let (version, bytes, size) = set_secret-small test_net secret compressed h n in
      let (valid, back) = get_secret-set_secret test_net secret compressed n in
      (
        set_secret test_net secret compressed,
        rw (set_string-to_string (set_secret test_net secret compressed) version bytes size, valid)
            refl,
        back,
      )
