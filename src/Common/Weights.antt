-- ===== src/Common/Weights.antt =====
-- Sums over the members of a list, such as the threads of a system.
use Prim.Native.Nat.{ℕ, ◌+◌, ◌*◌, ◌≤◌}
use mathlib.Core.Path.{◌≡◌, refl, sym, ap, ap₂, subst, fun_ext, ◌∙◌}
use mathlib.Core.Bool.{Bool, true, false}
use mathlib.Core.List.{List, [], ◌∷◌, ◌++◌, append_assoc}
use native.Mathlib.Omega.{arith}

abbrev pub bit : Bool → ℕ
bit true = 1
bit false = 0

module _ {ℓ} {A : Type ℓ} where
  unfoldable pub total : (A → ℕ) → List A → ℕ
  total weight [] = 0
  total weight (x ∷ xs) = weight x + total weight xs

module _ {ℓ} {A : Type ℓ} (weight : A → ℕ) where
  pub total-append : (xs ys : List A) → total weight (xs ++ ys) ≡ total weight xs + total weight ys
  unfolding total
  total-append [] ys = omega arith
  total-append (x ∷ xs) ys = omega (arith, total-append xs ys)

  -- The weight of all, seen from a part in the middle.
  pub total_around :
      (before mid after : List A)
      → total weight ((before ++ mid) ++ after)
        ≡ (total weight before + total weight after) + total weight mid
  total_around before mid after =
      omega (arith, total-append (before ++ mid) after, total-append before mid)

  pub total_cons : (x : A) (xs : List A) → total weight (x ∷ xs) ≡ total weight xs + weight x
  unfolding total
  total_cons x xs = omega arith

  pub total_at :
      (before : List A) (x : A) (after : List A)
      → total weight (before ++ (x ∷ after)) ≡ (total weight before + total weight after) + weight x
  total_at before x after = omega (arith, total-append before (x ∷ after), total_cons x after)

-- A property of a state and a weight passes from the steps of one thread to the system of all.
pub around :
    {S A : Type 0} (step : A → S → S × List A) (P : ℕ → S → Type 0) (weight : A → ℕ)
    → ((a : A) (s : S) (others : ℕ)
        → P (others + weight a) s
        → P (others + total weight (step a s).1) (step a s).0)
    → (s : S) (before : List A) (a : A) (after : List A)
    → P (total weight (before ++ (a ∷ after))) s
    → P (total weight ((before ++ (step a s).1) ++ after)) (step a s).0
around step P weight local s before a after h =
    subst (λ n. P n (step a s).0) (sym (total_around weight before (step a s).1 after))
      (local a s (total weight before + total weight after)
        (subst (λ n. P n s) (total_at weight before a after) h))

pub total_le :
    {A : Type 0} (v w : A → ℕ)
    → ((a : A) → v a ≤ 2 * w a)
    → (xs : List A) → total v xs ≤ 2 * total w xs
unfolding total
total_le v w bound [] = omega arith
total_le v w bound (x ∷ xs) = omega (arith, bound x, total_le v w bound xs)

-- The same for two weights, of which one bounds the other.
pub around_both :
    {S A : Type 0} (step : A → S → S × List A) (P : ℕ → ℕ → S → Type 0) (v w : A → ℕ)
    → ((a : A) → v a ≤ 2 * w a)
    → ((a : A) (s : S) (others_v others_w : ℕ)
        → others_v ≤ 2 * others_w
        → P (others_v + v a) (others_w + w a) s
        → P (others_v + total v (step a s).1) (others_w + total w (step a s).1) (step a s).0)
    → (s : S) (before : List A) (a : A) (after : List A)
    → P (total v (before ++ (a ∷ after))) (total w (before ++ (a ∷ after))) s
    → P
        (total v ((before ++ (step a s).1) ++ after))
        (total w ((before ++ (step a s).1) ++ after))
        (step a s).0
around_both step P v w bound local s before a after h =
    subst (λ n. P n (total w ((before ++ (step a s).1) ++ after)) (step a s).0)
      (sym (total_around v before (step a s).1 after))
      (subst (λ n. P ((total v before + total v after) + total v (step a s).1) n (step a s).0)
        (sym (total_around w before (step a s).1 after))
        (local a s (total v before + total v after) (total w before + total w after)
          (omega (arith, total_le v w bound before, total_le v w bound after))
          (subst (λ n. P n (total w before + total w after + w a) s) (total_at v before a after)
            (subst (λ n. P (total v (before ++ (a ∷ after))) n s) (total_at w before a after) h))))

-- What the members of a list hold, one after the other.
unfoldable pub gather : {A B : Type 0} → (A → List B) → List A → List B
gather f [] = []
gather f (x ∷ xs) = f x ++ gather f xs

module _ {A B : Type 0} (f : A → List B) where
  pub gather-append : (xs ys : List A) → gather f (xs ++ ys) ≡ gather f xs ++ gather f ys
  unfolding gather
  gather-append [] ys = refl
  gather-append (x ∷ xs) ys =
      ap (◌++◌ (f x)) (gather-append xs ys) ∙ sym (append_assoc (f x) (gather f xs) (gather f ys))

  pub gather_around :
      (before mid after : List A)
      → gather f ((before ++ mid) ++ after) ≡ gather f before ++ (gather f mid ++ gather f after)
  gather_around before mid after =
      gather-append (before ++ mid) after
      ∙ ap (λ ys. ys ++ gather f after) (gather-append before mid)
      ∙ append_assoc (gather f before) (gather f mid) (gather f after)

  pub gather_at :
      (before : List A) (x : A) (after : List A)
      → gather f (before ++ (x ∷ after)) ≡ gather f before ++ (f x ++ gather f after)
  unfolding gather
  gather_at before x after = gather-append before (x ∷ after)

  -- Members without weight that hold nothing.
  pub gather_nothing :
      (weight : A → ℕ)
      → ((x : A) → weight x ≡ 0 → f x ≡ [])
      → (xs : List A) → total weight xs ≡ 0
      → gather f xs ≡ []
  unfolding gather total
  gather_nothing weight empty [] h = refl
  gather_nothing weight empty (x ∷ xs) h =
      ap₂ ◌++◌ (empty x (omega (arith, h))) (gather_nothing weight empty xs (omega (arith, h)))

-- The totals of several weights at once, one for each `k`.
abbrev pub totals : {K A : Type 0} → (K → A → ℕ) → List A → K → ℕ
totals weight xs k = total (weight k) xs

-- The same for several weights at once.
pub around_kinds :
    {S A K : Type 0} (step : A → S → S × List A) (P : (K → ℕ) → S → Type 0) (weight : K → A → ℕ)
    → ((a : A) (s : S) (others : K → ℕ)
        → P (λ k. others k + weight k a) s
        → P (λ k. others k + totals weight (step a s).1 k) (step a s).0)
    → (s : S) (before : List A) (a : A) (after : List A)
    → P (totals weight (before ++ (a ∷ after))) s
    → P (totals weight ((before ++ (step a s).1) ++ after)) (step a s).0
around_kinds step P weight local s before a after h =
    subst (λ f. P f (step a s).0)
      (fun_ext (λ k. sym (total_around (weight k) before (step a s).1 after)))
      (local a s (λ k. totals weight before k + totals weight after k)
        (subst (λ f. P f s) (fun_ext (λ k. total_at (weight k) before a after)) h))
