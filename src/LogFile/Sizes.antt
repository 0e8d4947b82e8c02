-- ===== src/LogFile/Sizes.antt =====
-- Which file is opened, and whether its size is known.
use jun_core_v.Common.{
  ℕ, zero, suc, ◌+◌, ◌≤◌, ◌<◌, ◌≡◌, refl, inl, inr, Bool, true, ◌==◌, if◌then◌else◌, none, some,
  Bool-cases, ==_iff, subst, sym, ◌∙◌, arith,
}
use jun_core_v.LogFile.{
  LogFile, opened, max_file_size, set_file, after_loop, find_sequence, open_new_log_file,
}

search_new :
    (can_open : ℕ → Bool) (fuel sequence : ℕ) (f : LogFile)
    → f.files sequence ≡ none
    → can_open sequence ≡ true
    → find_sequence can_open (suc fuel) sequence f ≡ after_loop sequence (set_file sequence 0 f)
unfolding find_sequence
search_new can_open fuel sequence f e c = rw (e, find_sequence) (rw c refl)

search_full :
    (can_open : ℕ → Bool) (fuel sequence size : ℕ) (f : LogFile)
    → f.files sequence ≡ some size
    → max_file_size ≤ size
    → find_sequence can_open (suc fuel) sequence f ≡ find_sequence can_open fuel (sequence + 1) f
unfolding find_sequence
search_full can_open fuel sequence size f e full = rw (e, find_sequence) (ground arith)

-- Every file of these numbers is there and full.
abbrev pub AreFull : ℕ → ℕ → LogFile → Type 0
AreFull from to f =
    (s : ℕ) → from ≤ s → s < to → (size : ℕ) × (f.files s ≡ some size) × (max_file_size ≤ size)

-- If every file before number `k` is full and number `k` can be made, the search ends with it.
search-finds :
    (can_open : ℕ → Bool) (fuel sequence k : ℕ) (f : LogFile)
    → sequence ≤ k
    → k < sequence + fuel
    → AreFull sequence k f
    → f.files k ≡ none
    → can_open k ≡ true
    → find_sequence can_open fuel sequence f ≡ after_loop k (set_file k 0 f)
search-finds can_open zero sequence k f a b full e c = absurd (omega arith)
search-finds can_open (suc fuel) sequence k f a b full e c = elim (Bool-cases (sequence == k)) [
  | inl same ↦
      let here = (==_iff sequence k).0 same in
      subst (λ n. find_sequence can_open (suc fuel) n f ≡ after_loop k (set_file k 0 f)) (sym here)
        (search_new can_open fuel k f e c)
  | inr other ↦
      let (size, there, big) = full sequence (omega arith) (ground arith) in
      search_full can_open fuel sequence size f there big
      ∙ search-finds can_open fuel (sequence + 1) k f (ground arith) (omega arith)
          (λ s a' b'. full s (omega arith) b') e c
]

-- When the files up to number `k` are full, a rotation ends after `k` rounds of its loop with a new
-- empty file of number `k`; its size is taken to be 0 if `k` is 2, and else to be what it was of the
-- file before.
pub rotation-ends :
    (can_open : ℕ → Bool) (fuel k : ℕ) (f : LogFile)
    → 2 ≤ k
    → k ≤ fuel + 1
    → AreFull 2 k f
    → (size : ℕ) × (f.files 0 ≡ some size) × (max_file_size ≤ size)
    → f.files k ≡ none
    → can_open k ≡ true
    → (f' : LogFile) × (open_new_log_file can_open fuel f ≡ opened f')
      × (f'.log_file ≡ some k)
      × (f'.files k ≡ some 0)
      × (f'.current_file_size ≡ (if k == 2 then 0 else f.current_file_size))
unfolding open_new_log_file
rotation-ends can_open fuel k f a b full (size, there, big) e c =
    let found = search-finds can_open fuel 2 k f a (omega arith) full e c in
    elim (Bool-cases (k == 2)) [
      | inl two ↦ (
        record (set_file k 0 f) { log_file = some k; current_file_size = 0 },
        rw (there, open_new_log_file) (ground (arith, found)),
        refl,
        ground arith,
        ground arith,
      )
      | inr more ↦ (
        record (set_file k 0 f) { log_file = some k },
        rw (there, open_new_log_file) (ground (arith, found)),
        refl,
        ground arith,
        ground arith,
      )
    ]
