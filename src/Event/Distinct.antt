-- ===== src/Event/Distinct.antt =====
-- The map of handlers of JunCore/core/Event.h: what it contains after a call, and that no handler is
-- registered twice.
use jun_core_v.Common.{
  ℕ, ◌≡◌, ◌≢◌, refl, subst, List, [], ◌∷◌, true, false, arith, ◌==◌, Bool-cases, inl, inr,
  if◌then◌else◌,
}
use jun_core_v.Event.{contains, assign, erase}

module _ {H : Type 0} where
  pub contains-assign :
      (j id : ℕ) (handler : H) (l : List (ℕ × H))
      → contains j (assign id handler l) ≡ (if id == j then true else contains j l)
  unfolding assign
  contains-assign j id handler [] = ground arith
  contains-assign j id handler ((i, h) ∷ l) = ground (arith, contains-assign j id handler l)

  -- No handler is registered twice.
  abbrev pub Absent : ℕ → List (ℕ × H) → Type 0
  Absent id [] = Unit {0}
  Absent id ((i, h) ∷ l) = (i ≢ id) × Absent id l

  abbrev pub Distinct : List (ℕ × H) → Type 0
  Distinct [] = Unit {0}
  Distinct ((i, h) ∷ l) = Absent i l × Distinct l

  pub contains-Absent : (id : ℕ) (l : List (ℕ × H)) → Absent id l → contains id l ≡ false
  contains-Absent id [] a = refl
  contains-Absent id ((i, h) ∷ l) a = ground (arith, contains-Absent id l a.1)

  pub contains-erase_other :
      (j id : ℕ) (l : List (ℕ × H)) → id ≢ j → contains j (erase id l) ≡ contains j l
  unfolding erase
  contains-erase_other j id [] h = refl
  contains-erase_other j id ((i, x) ∷ l) h = ground (arith, contains-erase_other j id l h)

  pub contains-erase_self :
      (id : ℕ) (l : List (ℕ × H)) → Distinct l → contains id (erase id l) ≡ false
  unfolding erase
  contains-erase_self id [] d = refl
  contains-erase_self id ((i, x) ∷ l) d =
      ground (arith, contains-erase_self id l d.1, contains-Absent i l d.0)

  pub contains-erase_le :
      (j id : ℕ) (l : List (ℕ × H)) → contains j l ≡ false → contains j (erase id l) ≡ false
  unfolding erase
  contains-erase_le j id [] h = refl
  contains-erase_le j id ((i, x) ∷ l) h = ground (arith, contains-erase_le j id l)

  Absent-erase : (k id : ℕ) (l : List (ℕ × H)) → Absent k l → Absent k (erase id l)
  unfolding erase
  Absent-erase k id [] a = tt
  Absent-erase k id ((i, h) ∷ l) a = elim (Bool-cases (i == id)) [
    | inl e ↦ rw e a.1
    | inr e ↦ rw e (a.0, Absent-erase k id l a.1)
  ]

  pub Distinct-erase : (id : ℕ) (l : List (ℕ × H)) → Distinct l → Distinct (erase id l)
  unfolding erase
  Distinct-erase id [] d = tt
  Distinct-erase id ((i, h) ∷ l) d = elim (Bool-cases (i == id)) [
    | inl e ↦ rw e d.1
    | inr e ↦ rw e (Absent-erase i id l d.0, Distinct-erase id l d.1)
  ]

  Absent-assign :
      (k id : ℕ) (x : H) (l : List (ℕ × H)) → id ≢ k → Absent k l → Absent k (assign id x l)
  unfolding assign
  Absent-assign k id x [] n a = (n, tt)
  Absent-assign k id x ((i, h) ∷ l) n a = elim (Bool-cases (i == id)) [
    | inl e ↦ rw e (n, a.1)
    | inr e ↦ rw e (a.0, Absent-assign k id x l n a.1)
  ]

  pub Distinct-assign : (id : ℕ) (x : H) (l : List (ℕ × H)) → Distinct l → Distinct (assign id x l)
  unfolding assign
  Distinct-assign id x [] d = (tt, tt)
  Distinct-assign id x ((i, h) ∷ l) d = elim (Bool-cases (i == id)) [
    | inl e ↦ let same : i ≡ id = ground (arith, e) in rw e (subst (λ k. Absent k l) same d.0, d.1)
    | inr e ↦ rw e (Absent-assign i id x l (ground (arith, e)) d.0, Distinct-assign id x l d.1)
  ]
