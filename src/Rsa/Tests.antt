-- ===== src/Rsa/Tests.antt =====
-- RSA2048.cpp with a trivial cipher in the place of OpenSSL.
use jun_core_v.Common.{ℕ, ◌≡◌, refl, List, [], ◌∷◌, true, false, Option, none, some, ap, sym}
use mathlib.Core.Option.{some-injective}
use jun_core_v.Rsa.{
  OpenSsl, IsOpenSsl, Rsa, KeyAnswers, is_some, new_rsa, generate_key_pair, import_public_key,
  encrypt_with_public_key,
}
use jun_core_v.Rsa.Resources.{after, held, generate_key_pair-held}

abbrev first_of : List ℕ → Option ℕ
first_of [] = none
first_of (x ∷ xs) = some x

abbrev open_ssl : OpenSsl ℕ ℕ
open_ssl = record {
  public_of = λ k. k;
  to_der = λ k. some (k ∷ []);
  from_der = first_of;
  public_encrypt = λ k padding plain. some plain;
  private_decrypt = λ k cipher. some cipher;
}

open_ssl-IsOpenSsl : IsOpenSsl open_ssl
open_ssl-IsOpenSsl = record {
  imports = λ k der e. ap first_of (some-injective _ _ (sym e));
  decrypts = λ k padding plain cipher h e. sym e;
}

abbrev answers : KeyAnswers ℕ
answers = record {
  made_context = true;
  initialized = true;
  bits_set = true;
  made_exponent = true;
  word_set = true;
  exponent_set = false;
  generated = true;
  rsa = some 7;
}

abbrev with_key : Rsa ℕ ℕ
with_key = record { rsa_keypair = some 3; rsa_public_only = none }

-- The old key is lost when the new one cannot be made.
generate_key_pair-held_example :
    let (result, r', calls) = generate_key_pair answers with_key in
    (after calls (held true) ≡ some (held (is_some r'.rsa_keypair)))
    × (result ≡ is_some r'.rsa_keypair)
    × (r'.rsa_public_only ≡ none)
generate_key_pair-held_example = generate_key_pair-held answers with_key

sealed :
    encrypt_with_public_key open_ssl [] (1 ∷ 2 ∷ []) (import_public_key open_ssl (3 ∷ []) new_rsa).1
    ≡ some (1 ∷ 2 ∷ [])
unfolding encrypt_with_public_key import_public_key new_rsa
sealed = refl
