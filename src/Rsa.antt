-- ===== src/Rsa.antt =====
-- JunCommon/crypto/RSA2048.h and RSA2048.cpp. The functions of OpenSSL are the fields of a record; what
-- the calls of `GenerateKeyPair` answer is an argument.
pub mod Roundtrip
pub mod Resources
mod Tests
use jun_core_v.Common.{
  ℕ, ◌≡◌, ◌≤◌, List, [], ◌∷◌, ◌++◌, Bool, true, false, not, ltb, if◌then◌else◌, Option, none, some,
  length,
}

-- `i2d_RSA_PUBKEY`, `d2i_RSA_PUBKEY`, `RSA_public_encrypt` with the random bytes of its padding, and
-- `RSA_private_decrypt`; `none` stands for a failure.
pub record OpenSsl (Key PublicKey : Type 0) : Type 0 where
  pub public_of : Key → PublicKey
  pub to_der : Key → Option (List ℕ)
  pub from_der : List ℕ → Option PublicKey
  pub public_encrypt : PublicKey → List ℕ → List ℕ → Option (List ℕ)
  pub private_decrypt : Key → List ℕ → Option (List ℕ)

abbrev pub max_encrypt_size : ℕ
max_encrypt_size = 245

-- The documented behaviour: an exported key is imported as its public part, and what is encrypted with
-- that is decrypted to what it was.
pub record IsOpenSsl {Key PublicKey : Type 0} (o : OpenSsl Key PublicKey) : Type 0 where
  pub imports :
      (key : Key) (der : List ℕ) → o.to_der key ≡ some der → o.from_der der ≡ some (o.public_of key)
  pub decrypts :
      (key : Key) (padding plain cipher : List ℕ)
      → length plain ≤ max_encrypt_size
      → o.public_encrypt (o.public_of key) padding plain ≡ some cipher
      → o.private_decrypt key cipher ≡ some plain

-- What `GenerateKeyPair` takes of OpenSSL and gives back.
pub data Resource : Type 0 where
  context exponent pair key : Resource

pub data Call : Type 0 where
  take_one give_back : Resource → Call

pub record Rsa (Key PublicKey : Type 0) : Type 0 where
  pub rsa_keypair : Option Key
  pub rsa_public_only : Option PublicKey

-- What the calls of `GenerateKeyPair` answer: whether each succeeds, and the key of the pair.
pub record KeyAnswers (Key : Type 0) : Type 0 where
  pub made_context : Bool
  pub initialized : Bool
  pub bits_set : Bool
  pub made_exponent : Bool
  pub word_set : Bool
  pub exponent_set : Bool
  pub generated : Bool
  pub rsa : Option Key

abbrev pub is_some : {A : Type 0} → Option A → Bool
is_some none = false
is_some (some a) = true

-- `GenerateKeyPair`, after the old key is freed.
abbrev pub key_calls : {Key : Type 0} → KeyAnswers Key → Option Key × List Call
key_calls a =
    if not a.made_context
    then (none, [])
    else if not a.initialized
    then (none, take_one context ∷ give_back context ∷ [])
    else if not a.bits_set
    then (none, take_one context ∷ give_back context ∷ [])
    else if not a.made_exponent
    then (none, take_one context ∷ give_back context ∷ [])
    else if not a.word_set
    then (none, take_one context ∷ take_one exponent ∷ give_back exponent ∷ give_back context ∷ [])
    else if not a.exponent_set
    then (none, take_one context ∷ take_one exponent ∷ give_back exponent ∷ give_back context ∷ [])
    else if not a.generated
    then (none, take_one context ∷ take_one exponent ∷ give_back exponent ∷ give_back context ∷ [])
    else (
      a.rsa,
      take_one context
          ∷ take_one exponent
          ∷ give_back exponent
          ∷ take_one pair
          ∷ elim a.rsa as (λ x. List Call) [
            | none ↦ give_back pair ∷ give_back context ∷ []
            | some k ↦ take_one key ∷ give_back pair ∷ give_back context ∷ []
          ],
    )

module _ {Key PublicKey : Type 0} where
  unfoldable pub new_rsa : Rsa Key PublicKey
  new_rsa = record { rsa_keypair = none; rsa_public_only = none }

  abbrev pub free_keypair : Rsa Key PublicKey → List Call
  free_keypair r = elim r.rsa_keypair [ none ↦ [] | some k ↦ give_back key ∷ [] ]

  unfoldable pub generate_key_pair :
      KeyAnswers Key → Rsa Key PublicKey → Bool × Rsa Key PublicKey × List Call
  generate_key_pair a r =
      let made = key_calls a in
      (is_some made.0, record r { rsa_keypair = made.0 }, free_keypair r ++ made.1)

  module _ (o : OpenSsl Key PublicKey) where
    -- `ExportPublicKey`; `none` stands for the exception.
    unfoldable pub export_public_key : Rsa Key PublicKey → Option (List ℕ)
    export_public_key r = elim r.rsa_keypair [ none ↦ none | some k ↦ o.to_der k ]

    unfoldable pub import_public_key : List ℕ → Rsa Key PublicKey → Bool × Rsa Key PublicKey
    import_public_key der r =
        (is_some (o.from_der der), record r { rsa_public_only = o.from_der der })

    -- `EncryptWithPublicKey`: the ciphertext, if it returns true.
    unfoldable pub encrypt_with_public_key : List ℕ → List ℕ → Rsa Key PublicKey → Option (List ℕ)
    encrypt_with_public_key padding plaintext r = elim r.rsa_public_only [
      | none ↦ none
      | some k ↦
          if ltb max_encrypt_size (length plaintext)
          then none
          else o.public_encrypt k padding plaintext
    ]

    -- `DecryptWithPrivateKey`: the plaintext, if it returns true.
    unfoldable pub decrypt_with_private_key : List ℕ → Rsa Key PublicKey → Option (List ℕ)
    decrypt_with_private_key ciphertext r = elim r.rsa_keypair [
      | none ↦ none
      | some k ↦ o.private_decrypt k ciphertext
    ]

  unfoldable pub has_key_pair : Rsa Key PublicKey → Bool
  has_key_pair r = is_some r.rsa_keypair

  unfoldable pub has_public_key_only : Rsa Key PublicKey → Bool
  has_public_key_only r = is_some r.rsa_public_only
