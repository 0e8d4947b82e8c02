-- ===== src/Common/Memory.antt =====
-- Process memory as a function from addresses to bytes, with `memmove` in and out of it.
use Prim.Native.Nat.{ℕ, zero, suc, ◌+◌, ◌≤◌, ◌<◌}
use mathlib.Core.Path.{◌≡◌, refl, ap, ap₂, ◌∙◌}
use mathlib.Core.Logic.{◌⊎◌}
use mathlib.Core.List.{List, [], ◌∷◌, ◌++◌}
use native.Mathlib.Omega.{arith}
use jun_core_v.Common.Tests.{◌==◌, if◌then◌else◌}
use jun_core_v.Common.Lists.{length}

abbrev pub Memory : Type 0
Memory = ℕ → ℕ

abbrev pub store : Memory → ℕ → ℕ → Memory
store m a v b = if a == b then v else m b

-- The bytes that a `memmove` out of `[a, a + n)` copies.
unfoldable pub read_bytes : Memory → ℕ → ℕ → List ℕ
read_bytes m a zero = []
read_bytes m a (suc n) = m a ∷ read_bytes m (suc a) n

-- A `memmove` of the listed bytes to `a`.
unfoldable pub write_bytes : Memory → ℕ → List ℕ → Memory
write_bytes m a [] = m
write_bytes m a (x ∷ xs) = write_bytes (store m a x) (suc a) xs

pub length-read_bytes : (m : Memory) (a n : ℕ) → length (read_bytes m a n) ≡ n
unfolding read_bytes
length-read_bytes m a zero = refl
length-read_bytes m a (suc n) = ap suc (length-read_bytes m (suc a) n)

-- A write leaves every byte outside its range alone.
pub write_bytes_outside :
    (m : Memory) (a : ℕ) (xs : List ℕ) (b : ℕ)
    → (b < a) ⊎ (a + length xs ≤ b)
    → write_bytes m a xs b ≡ m b
unfolding write_bytes
write_bytes_outside m a [] b h = refl
write_bytes_outside m a (x ∷ xs) b h =
    write_bytes_outside (store m a x) (suc a) xs b (omega arith) ∙ ground arith

-- What was written is read back.
pub read_bytes-write_bytes :
    (m : Memory) (a : ℕ) (xs : List ℕ) → read_bytes (write_bytes m a xs) a (length xs) ≡ xs
unfolding read_bytes write_bytes
read_bytes-write_bytes m a [] = refl
read_bytes-write_bytes m a (x ∷ xs) =
    ap₂ ◌∷◌ (write_bytes_outside (store m a x) (suc a) xs a (omega arith) ∙ ground arith)
      (read_bytes-write_bytes (store m a x) (suc a) xs)

-- Reading depends on the bytes of the range alone.
pub read_bytes_congr :
    (m m' : Memory) (a n : ℕ)
    → ((b : ℕ) → a ≤ b → b < a + n → m b ≡ m' b)
    → read_bytes m a n ≡ read_bytes m' a n
unfolding read_bytes
read_bytes_congr m m' a zero h = refl
read_bytes_congr m m' a (suc n) h =
    ap₂ ◌∷◌ (h a (omega arith) (omega arith))
      (read_bytes_congr m m' (suc a) n (λ b p q. h b (omega arith) (omega arith)))

pub read_bytes-add :
    (m : Memory) (a k n : ℕ) → read_bytes m a (k + n) ≡ read_bytes m a k ++ read_bytes m (a + k) n
unfolding read_bytes
read_bytes-add m a zero n = ap₂ (read_bytes m) (omega arith) (omega arith)
read_bytes-add m a (suc k) n =
    let e : suc k + n ≡ suc (k + n) = omega arith in
    let f : a + suc k ≡ suc a + k = omega arith in
    rw (e, f) (ap (◌∷◌ (m a)) (read_bytes-add m (suc a) k n))
