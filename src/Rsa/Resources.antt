-- ===== src/Rsa/Resources.antt =====
-- What `GenerateKeyPair` keeps of OpenSSL.
use jun_core_v.Common.{
  ℕ, zero, suc, if◌then◌else◌, ◌≡◌, List, [], ◌∷◌, Bool, Option, none, some, arith,
}
use jun_core_v.Rsa.{
  Rsa, KeyAnswers, Call, take_one, give_back, context, exponent, pair, key, is_some,
  generate_key_pair,
}

-- The numbers of contexts, exponents, pairs and keys that are held.
pub record Held : Type 0 where
  pub contexts : ℕ
  pub exponents : ℕ
  pub pairs : ℕ
  pub keys : ℕ

abbrev pub lower : ℕ → (ℕ → Held) → Option Held
lower zero h = none
lower (suc n) h = some (h n)

-- One call; `none` stands for giving back what is not held.
unfoldable pub one : Call → Held → Option Held
one (take_one context) h = some (record h { contexts = suc h.contexts })
one (take_one exponent) h = some (record h { exponents = suc h.exponents })
one (take_one pair) h = some (record h { pairs = suc h.pairs })
one (take_one key) h = some (record h { keys = suc h.keys })
one (give_back context) h = lower h.contexts (λ n. record h { contexts = n })
one (give_back exponent) h = lower h.exponents (λ n. record h { exponents = n })
one (give_back pair) h = lower h.pairs (λ n. record h { pairs = n })
one (give_back key) h = lower h.keys (λ n. record h { keys = n })

unfoldable pub after : List Call → Held → Option Held
after [] h = some h
after (call ∷ calls) h = elim (one call h) [ none ↦ none | some h' ↦ after calls h' ]

abbrev pub held : Bool → Held
held has_key = record { contexts = 0; exponents = 0; pairs = 0; keys = if has_key then 1 else 0 }

-- On every branch, `GenerateKeyPair` gives back all it took but the key that the object then has, the
-- old key included, returns whether there is one, and leaves the imported key alone.
pub generate_key_pair-held :
    {Key PublicKey : Type 0} (a : KeyAnswers Key) (r : Rsa Key PublicKey)
    → let (result, r', calls) = generate_key_pair a r in
      (after calls (held (is_some r.rsa_keypair)) ≡ some (held (is_some r'.rsa_keypair)))
      × (result ≡ is_some r'.rsa_keypair)
      × (r'.rsa_public_only ≡ r.rsa_public_only)
unfolding generate_key_pair after one
generate_key_pair-held a r = ground arith
