-- ===== src/Aes/Size.antt =====
-- How much the encryption of AES128.cpp writes, and where.
use jun_core_v.Common.{
  ℕ, ◌+◌, ◌*◌, ◌/◌, ◌%◌, ◌≡◌, refl, sym, ap, ◌∙◌, List, ◌++◌, Bool, true, false, not, ◌==◌,
  if◌then◌else◌, Option, none, some, length, length-append, length-drop, drop, arith,
}
use mathlib.Core.Option.{some-injective}
use jun_core_v.Aes.{
  Mode, Evp, get_encrypted_size, written_into, encrypt_blocks, encrypt_start, encrypt_aes128,
  encrypt,
}

-- By how much the padded text exceeds the buffer that the code asks for.
abbrev pub excess : ℕ → ℕ
excess plaintext_size = if plaintext_size % 16 == 0 then 16 else 0

module _ {Ctx : Type 0} (evp : Evp Ctx) where
  -- The documented padding of the two modes: one to sixteen bytes, up to a whole block.
  abbrev pub Pads : Type 0
  Pads =
      (plaintext body last : List ℕ) (c c' c'' : Ctx)
      → evp.encrypt_update plaintext c ≡ some (body, c')
      → evp.encrypt_final c' ≡ some (last, c'')
      → length body + length last ≡ 16 * (length plaintext / 16 + 1)

  after_final :
      (n : ℕ) (body out : List ℕ) (y : Option (List ℕ × Ctx))
      → ((last : List ℕ) (c : Ctx) → y ≡ some (last, c) → length body + length last ≡ n)
      → elim y [ none ↦ none | some (last, c) ↦ some (body ++ last) ] ≡ some out
      → length out ≡ n
  after_final n body out none sum h = absurd (ground (arith, h))
  after_final n body out (some (last, c)) sum h =
      sym (ap length (some-injective _ _ h)) ∙ length-append body last ∙ sum last c refl

  after_update :
      (n : ℕ) (out : List ℕ) (x : Option (List ℕ × Ctx))
      → ((body last : List ℕ) (c c' : Ctx)
          → x ≡ some (body, c)
          → evp.encrypt_final c ≡ some (last, c')
          → length body + length last ≡ n)
      → elim x [
        | none ↦ none
        | some (body, c) ↦ elim (evp.encrypt_final c) [
          | none ↦ none
          | some (last, c') ↦ some (body ++ last)
        ]
      ]
        ≡ some out
      → length out ≡ n
  after_update n out none sum h = absurd (ground (arith, h))
  after_update n out (some (body, c)) sum h =
      after_final n body out (evp.encrypt_final c) (λ last c'. sum body last c c' refl) h

  encrypt_blocks_size :
      Pads
      → (plaintext out : List ℕ) (c : Ctx) → encrypt_blocks evp plaintext c ≡ some out
      → length out ≡ 16 * (length plaintext / 16 + 1)
  unfolding encrypt_blocks
  encrypt_blocks_size pads plaintext out c h =
      after_update _ out (evp.encrypt_update plaintext c)
        (λ body last c' c''. pads plaintext body last c c' c'') h

  passed_guard :
      (right : Bool) (started : Option Ctx) (plaintext out : List ℕ)
      → (if not right
          then none
          else elim started [ none ↦ none | some c ↦ encrypt_blocks evp plaintext c ])
        ≡ some out
      → (right ≡ true) × ((c : Ctx) × (encrypt_blocks evp plaintext c ≡ some out))
  passed_guard false started plaintext out h = absurd (ground (arith, h))
  passed_guard true none plaintext out h = absurd (ground (arith, h))
  passed_guard true (some c) plaintext out h = (refl, (c, h))

  -- With a library that pads, an encryption that succeeds was given a buffer of exactly
  -- `GetEncryptedSize` bytes, and fills it, but writes 16 bytes more than it holds if the size of the
  -- text is a multiple of 16.
  pub encrypt_aes128_size :
      Pads
      → (mode : Mode) (plaintext key out : List ℕ) (size : ℕ) (c : Ctx)
      → encrypt_aes128 evp mode plaintext key size c ≡ some out
      → (size ≡ get_encrypted_size (length plaintext))
        × (length out ≡ size + excess (length plaintext))
  unfolding encrypt_aes128
  encrypt_aes128_size pads mode plaintext key out size c h =
      let (right, (c', e)) =
        passed_guard (size == get_encrypted_size (length plaintext)) (encrypt_start evp mode key c)
          plaintext out h in
      let same : size ≡ get_encrypted_size (length plaintext) = ground (arith, right) in
      (same, ground (arith, same, encrypt_blocks_size pads plaintext out c' e))

  written :
      (size : ℕ) (x : Option (List ℕ)) (vector past : List ℕ)
      → elim x [ none ↦ none | some bytes ↦ some (written_into size bytes) ] ≡ some (vector, past)
      → (bytes : List ℕ) × (x ≡ some bytes) × (past ≡ drop size bytes)
  written size none vector past h = absurd (ground (arith, h))
  written size (some bytes) vector past h =
      (bytes, refl, sym (ap (λ v. v.1) (some-injective _ _ h)))

  -- With a library that pads, an encryption into a vector writes nothing past its end, but 16 bytes
  -- if the size of the text is a multiple of 16.
  pub encrypt_past_end :
      Pads
      → (mode : Mode) (plaintext key vector past : List ℕ) (c : Ctx)
      → encrypt evp mode plaintext key c ≡ some (vector, past)
      → length past ≡ excess (length plaintext)
  unfolding encrypt
  encrypt_past_end pads mode plaintext key vector past c h =
      let size = get_encrypted_size (length plaintext) in
      let (bytes, e, gone) =
        written size (encrypt_aes128 evp mode plaintext key size c) vector past h in
      let (_, len) = encrypt_aes128_size pads mode plaintext key bytes size c e in
      ap length gone ∙ length-drop size bytes ∙ ground (arith, len)
