-- ===== src/Aes/Tests.antt =====
-- A library that copies the text and pads it, in place of a cipher.
use jun_core_v.Common.{
  ℕ, zero, suc, ◌-◌, ◌%◌, ◌≡◌, refl, ap, List, [], some, length, replicate, arith,
}
use mathlib.Core.Option.{some-injective}
use jun_core_v.Aes.{ecb, Evp, encrypt_blocks, encrypt_start, encrypt_aes128, encrypt}
use jun_core_v.Aes.Size.{Pads, excess, encrypt_past_end}

-- The context is the number of bytes of padding that are due.
copying : Evp ℕ
copying = record {
  reset = λ c. some 0;
  encrypt_init = λ mode key c. some c;
  encrypt_update = λ text c. some (text, 16 - length text % 16);
  encrypt_final = λ c. some (replicate c c, c);
  decrypt_init = λ mode key c. some c;
  decrypt_update = λ text c. some (text, c);
  decrypt_final = λ c. some ([], c);
}

length-replicate : (n x : ℕ) → length (replicate n x) ≡ n
length-replicate zero x = omega arith
length-replicate (suc n) x = omega (arith, length-replicate n x)

copying-Pads : Pads copying
unfolding copying
copying-Pads text body last c c' c'' e f =
    let b = ap (λ v. length v.0) (some-injective _ _ e) in
    let due = ap (λ v. v.1) (some-injective _ _ e) in
    let l = ap (λ v. length v.0) (some-injective _ _ f) in
    omega (arith, b, due, l, length-replicate c' c')

abbrev block : List ℕ
block = replicate 16 7

abbrev block_padding : List ℕ
block_padding = replicate 16 16

encrypt_past_end_example : length block_padding ≡ excess (length block)
unfolding copying encrypt encrypt_aes128 encrypt_start encrypt_blocks
encrypt_past_end_example =
    encrypt_past_end copying copying-Pads ecb block [] block block_padding 0 refl
