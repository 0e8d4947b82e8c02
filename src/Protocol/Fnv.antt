-- ===== src/Protocol/Fnv.antt =====
-- JunCore/core/base.h: the FNV-1a hash that names packet types.
use jun_core_v.Common.{
  ℕ, zero, suc, ◌*◌, ◌%◌, ◌^◌, ◌<◌, ◌≡◌, refl, List, [], ◌∷◌, ◌==◌, if◌then◌else◌, length, bit_xor,
  arith,
}

abbrev pub fnv_offset : ℕ
fnv_offset = 2166136261

abbrev pub fnv_prime : ℕ
fnv_prime = 16777619

-- `hash ^= byte; hash *= 16777619u`
pub fnv_step : ℕ → ℕ → ℕ
fnv_step hash byte = bit_xor hash byte * fnv_prime % 2 ^ 32

-- `while (*s)`: the text ends at its first NUL byte.
fnv1a_from : ℕ → List ℕ → ℕ
fnv1a_from hash [] = hash
fnv1a_from hash (c ∷ s) = let rest = fnv1a_from (fnv_step hash c) s in if c == 0 then hash else rest

unfoldable pub fnv1a : List ℕ → ℕ
unfolding fnv1a_from fnv_step
fnv1a s = fnv1a_from fnv_offset s

-- The overload for a block of `len` bytes.
fnv1a_data_from : ℕ → List ℕ → ℕ → ℕ
fnv1a_data_from hash data_ zero = hash
fnv1a_data_from hash [] (suc len) = hash
fnv1a_data_from hash (b ∷ bs) (suc len) = fnv1a_data_from (fnv_step hash b) bs len

unfoldable pub fnv1a_data : List ℕ → ℕ → ℕ
unfolding fnv1a_data_from fnv_step
fnv1a_data data_ len = fnv1a_data_from fnv_offset data_ len

pub make_protocol_code : ℕ → ℕ → ℕ → ℕ
unfolding fnv1a_data
make_protocol_code game_ver protocol_ver build_id =
    fnv1a_data (game_ver ∷ protocol_ver ∷ build_id ∷ []) 3

-- No byte of the text is NUL.
abbrev pub NoNul : List ℕ → Type 0
NoNul [] = Unit {0}
NoNul (c ∷ s) = (0 < c) × NoNul s

from_agree :
    (hash : ℕ) (s : List ℕ) → NoNul s → fnv1a_from hash s ≡ fnv1a_data_from hash s (length s)
unfolding fnv1a_from fnv1a_data_from
from_agree hash [] h = refl
from_agree hash (c ∷ s) h = ground (arith, from_agree (fnv_step hash c) s h.1)

-- On a text without NUL bytes the two overloads give the same hash, so a packet id does not
-- depend on which one names the packet type.
pub fnv1a-eq-fnv1a_data : (s : List ℕ) → NoNul s → fnv1a s ≡ fnv1a_data s (length s)
unfolding fnv1a fnv1a_data
fnv1a-eq-fnv1a_data s h = from_agree fnv_offset s h

from-lt : (hash : ℕ) (s : List ℕ) → hash < 2 ^ 32 → fnv1a_from hash s < 2 ^ 32
unfolding fnv1a_from
from-lt hash [] h = h
from-lt hash (c ∷ s) h =
    ground (arith, from-lt (fnv_step hash c) s (unfold fnv_step in omega arith))

-- A packet id is a 32-bit word.
pub fnv1a-lt : (s : List ℕ) → fnv1a s < 2 ^ 32
unfolding fnv1a
fnv1a-lt s = from-lt fnv_offset s (omega arith)
