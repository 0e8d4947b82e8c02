-- ===== src/Aes.antt =====
-- JunCommon/crypto/AES128.h and AES128.cpp: the buffers around the OpenSSL calls, which are a
-- parameter. A call that fails answers `none`; an encryption that succeeds answers the bytes that it
-- writes from the start of the caller's buffer on. Every call resets the context of its thread first,
-- so what it leaves there is not kept. Sizes are below 2 ^ 31.
pub mod Size
mod Tests
use jun_core_v.Common.{
  ℕ, ◌+◌, ◌*◌, ◌/◌, List, [], ◌++◌, Bool, true, false, not, ◌==◌, ltb, if◌then◌else◌, Option, none,
  some, length, take, drop, replicate,
}

-- `EVP_aes_128_cbc` with its vector, and `EVP_aes_128_ecb`, which has none.
pub data Mode : Type 0 where
  cbc : List ℕ → Mode
  ecb : Mode

-- The OpenSSL functions on a context, each of which can fail.
pub record Evp (Ctx : Type 0) : Type 0 where
  pub reset : Ctx → Option Ctx
  pub encrypt_init : Mode → List ℕ → Ctx → Option Ctx
  pub encrypt_update : List ℕ → Ctx → Option (List ℕ × Ctx)
  pub encrypt_final : Ctx → Option (List ℕ × Ctx)
  pub decrypt_init : Mode → List ℕ → Ctx → Option Ctx
  pub decrypt_update : List ℕ → Ctx → Option (List ℕ × Ctx)
  pub decrypt_final : Ctx → Option (List ℕ × Ctx)

-- `GetEncryptedSize`
abbrev pub get_encrypted_size : ℕ → ℕ
get_encrypted_size plaintext_size = ((plaintext_size + 15) / 16) * 16

-- A vector of `size` bytes after `bytes` were written from its start on, and what went past its end.
abbrev pub written_into : ℕ → List ℕ → List ℕ × List ℕ
written_into size bytes = (take size (bytes ++ replicate size 0), drop size bytes)

module _ {Ctx : Type 0} (evp : Evp Ctx) where
  -- The update and the final call, whose bytes stand one behind the other.
  unfoldable pub encrypt_blocks : List ℕ → Ctx → Option (List ℕ)
  encrypt_blocks plaintext ctx = elim (evp.encrypt_update plaintext ctx) [
    | none ↦ none
    | some (body, ctx') ↦ elim (evp.encrypt_final ctx') [
      | none ↦ none
      | some (last, ctx'') ↦ some (body ++ last)
    ]
  ]

  unfoldable pub encrypt_start : Mode → List ℕ → Ctx → Option Ctx
  encrypt_start mode key ctx = elim (evp.reset ctx) [
    | none ↦ none
    | some ctx' ↦ evp.encrypt_init mode key ctx'
  ]

  -- `EncryptAES128` and `EncryptAES128_ECB`
  unfoldable pub encrypt_aes128 : Mode → List ℕ → List ℕ → ℕ → Ctx → Option (List ℕ)
  encrypt_aes128 mode plaintext key max_ciphertext_size ctx =
      let expected_size = ((length plaintext + 15) / 16) * 16 in
      if not (max_ciphertext_size == expected_size)
      then none
      else elim (encrypt_start mode key ctx) [
        | none ↦ none
        | some ctx' ↦ encrypt_blocks plaintext ctx'
      ]

  unfoldable pub decrypt_blocks : List ℕ → Ctx → Option (List ℕ)
  decrypt_blocks ciphertext ctx = elim (evp.decrypt_update ciphertext ctx) [
    | none ↦ none
    | some (body, ctx') ↦ elim (evp.decrypt_final ctx') [
      | none ↦ none
      | some (last, ctx'') ↦ some (body ++ last)
    ]
  ]

  unfoldable pub decrypt_start : Mode → List ℕ → Ctx → Option Ctx
  decrypt_start mode key ctx = elim (evp.reset ctx) [
    | none ↦ none
    | some ctx' ↦ evp.decrypt_init mode key ctx'
  ]

  -- `DecryptAES128` and `DecryptAES128_ECB`; the length of the answer is `*actual_plaintext_size`.
  unfoldable pub decrypt_aes128 : Mode → List ℕ → List ℕ → ℕ → Ctx → Option (List ℕ)
  decrypt_aes128 mode ciphertext key max_plaintext_size ctx =
      if ltb max_plaintext_size (length ciphertext)
      then none
      else elim (decrypt_start mode key ctx) [
        | none ↦ none
        | some ctx' ↦ decrypt_blocks ciphertext ctx'
      ]

  -- The overloads of `Encrypt` and `EncryptECB` on vectors: the vector after the call, and the bytes
  -- written past its end.
  unfoldable pub encrypt : Mode → List ℕ → List ℕ → Ctx → Option (List ℕ × List ℕ)
  encrypt mode plaintext key ctx =
      let encrypted_size = get_encrypted_size (length plaintext) in
      elim (encrypt_aes128 mode plaintext key encrypted_size ctx) [
        | none ↦ none
        | some bytes ↦ some (written_into encrypted_size bytes)
      ]

  -- The overloads of `Decrypt` and `DecryptECB` on vectors.
  unfoldable pub decrypt : Mode → List ℕ → List ℕ → Ctx → Option (List ℕ)
  decrypt mode ciphertext key ctx = decrypt_aes128 mode ciphertext key (length ciphertext) ctx
