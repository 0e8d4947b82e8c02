-- ===== src/Rsa/Roundtrip.antt =====
-- What one side encrypts with the exported key of the other, the other decrypts.
use jun_core_v.Common.{ℕ, ◌≡◌, ◌≤◌, List, some, length, Option-cases, inl, inr, arith}
use jun_core_v.Rsa.{
  OpenSsl, IsOpenSsl, Rsa, max_encrypt_size, export_public_key, import_public_key,
  encrypt_with_public_key, decrypt_with_private_key,
}

-- A ciphertext that the client makes with the public key that the server exported, and that it
-- imported, is decrypted by the server to the plaintext, which has at most 245 bytes.
pub decrypt-encrypt :
    {Key PublicKey : Type 0} (o : OpenSsl Key PublicKey)
    → IsOpenSsl o
    → (server client : Rsa Key PublicKey) (der padding plaintext ciphertext : List ℕ)
    → export_public_key o server ≡ some der
    → encrypt_with_public_key o padding plaintext (import_public_key o der client).1
      ≡ some ciphertext
    → (decrypt_with_private_key o ciphertext server ≡ some plaintext)
      × (length plaintext ≤ max_encrypt_size)
unfolding export_public_key import_public_key encrypt_with_public_key decrypt_with_private_key
decrypt-encrypt o law server client der padding plaintext ciphertext exported encrypted =
    elim (Option-cases server.rsa_keypair) [
      | inl e ↦ absurd (ground (arith, e))
      | inr (k, e) ↦
          ground (arith, e, law.imports k der, law.decrypts k padding plaintext ciphertext)
    ]
