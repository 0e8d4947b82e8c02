-- ===== src/ConfigParser/Lookup.antt =====
-- `GetValue` of JunCommon/algorithm/Parser.cpp against a lookup among the words of the file.
use jun_core_v.Common.{
  ℕ, suc, ◌≡◌, refl, sym, ap, ◌∙◌, List, [], ◌∷◌, ◌++◌, append_assoc, true, false, Option, none,
  ◌==◌, arith, Bool-cases, inl, inr, if◌then◌else◌,
}
use jun_core_v.ConfigParser.{
  Outcome, returned, next_char, word_loop, find_word, after_key, after_section, get_value,
  load_file, ◌>>=◌, find_char, find_space, is_word, after_word,
}
use jun_core_v.ConfigParser.Words.{
  Blank, Solid, Piece, AllPieces, render, seek, stop_at, Anchored, find_word-render,
  next_char-render, word, same_word,
}

-- What ends a block, with nothing left uninitialised.
abbrev pub nul : List ℕ
nul = 0 ∷ []

nul-Anchored : Anchored nul
unfolding find_char
nul-Anchored = refl

-- No name is found at the end of the block.
word_loop-nul :
    (c : ℕ) (w : List ℕ) (fuel : ℕ)
    → Solid (c ∷ w)
    → word_loop (suc fuel) (c ∷ w) nul ≡ returned (false, [])
unfolding word_loop is_word after_word next_char find_space
word_loop-nul c w fuel v = ground (arith, v.2)

pub AllPieces-seek : (w : List ℕ) (ps : List Piece) → AllPieces ps → AllPieces (seek w ps)
unfolding seek
AllPieces-seek w [] h = tt
AllPieces-seek w (p ∷ ps) h = elim (Bool-cases (same_word w (word p))) [
  | inl e ↦ rw e h
  | inr e ↦ rw e (AllPieces-seek w ps h.1)
]

render-append : (ps : List Piece) (a b : List ℕ) → render ps (a ++ b) ≡ render ps a ++ b
unfolding render
render-append [] a b = refl
render-append (p ∷ ps) a b =
    ap (λ l. word p ++ (p.blank ∷ (p.blanks ++ l))) (render-append ps a b) ∙ simp append_assoc

load_file-render :
    (indent : List ℕ) (ps : List Piece)
    → load_file (indent ++ render ps []) [] ≡ indent ++ render ps nul
unfolding load_file
load_file-render indent ps =
    append_assoc indent (render ps []) nul ∙ ap (◌++◌ indent) (sym (render-append ps [] nul))

module _ {V : Type 0} (get : List ℕ → Outcome (Option V)) where
  -- The value at the second word after the one that was sought, if the first begins with `=`.
  unfoldable pub value_at : List Piece → List ℕ → Outcome (Option V)
  value_at [] tail = returned none
  value_at (p ∷ []) tail = returned none
  value_at (p ∷ e ∷ es) tail = if e.first == b'=' then get (render es tail) else returned none

  -- The lookup among the pieces from the section's name on: an opening brace follows, and the key is
  -- sought from the brace on.
  unfoldable pub lookup_at : List ℕ → List Piece → List ℕ → Outcome (Option V)
  lookup_at key [] tail = returned none
  lookup_at key (p ∷ []) tail = returned none
  lookup_at key (p ∷ b ∷ bs) tail =
      if b.first == b'{' then value_at (seek key (b ∷ bs)) tail else returned none

  pub after_key-render :
      (p e : Piece) (es : List Piece) (tail : List ℕ)
      → AllPieces (p ∷ e ∷ es)
      → Anchored tail
      → after_key get (true, render (p ∷ e ∷ es) tail) ≡ value_at (p ∷ e ∷ es) tail
  unfolding after_key value_at render
  after_key-render p e es tail h t =
      rw (next_char-render p (e ∷ es) tail h t, next_char-render e es tail h.1 t) refl

  after_key-value_at :
      (qs : List Piece)
      → AllPieces qs
      → (stop_at qs nul (returned (false, [])) >>= after_key get) ≡ value_at qs nul
  unfolding after_key value_at render
  after_key-value_at [] h = refl
  after_key-value_at (p ∷ []) h = rw (next_char-render p [] nul h nul-Anchored) refl
  after_key-value_at (p ∷ e ∷ es) h = after_key-render p e es nul h nul-Anchored

  module _ (d : ℕ) (key : List ℕ) (v : Solid (d ∷ key)) where
    find_key :
        (ps : List Piece)
        → AllPieces ps
        → (find_word (d ∷ key) (render ps nul) >>= after_key get) ≡ value_at (seek (d ∷ key) ps) nul
    find_key ps h =
        let (fuel, found) = find_word-render (d ∷ key) [] ps nul v tt h nul-Anchored in
        rw (found, word_loop-nul d key fuel v)
          (after_key-value_at (seek (d ∷ key) ps) (AllPieces-seek (d ∷ key) ps h))

    after_section-lookup_at :
        (qs : List Piece)
        → AllPieces qs
        → (stop_at qs nul (returned (false, [])) >>= after_section get (d ∷ key))
          ≡ lookup_at (d ∷ key) qs nul
    unfolding after_section lookup_at render
    after_section-lookup_at [] h = refl
    after_section-lookup_at (p ∷ []) h = rw (next_char-render p [] nul h nul-Anchored) refl
    after_section-lookup_at (p ∷ b ∷ bs) h = elim (Bool-cases (b.first == b'{')) [
      | inl open_brace ↦
          rw (next_char-render p (b ∷ bs) nul h nul-Anchored, open_brace) (find_key (b ∷ bs) h.1)
      | inr other ↦ rw (next_char-render p (b ∷ bs) nul h nul-Anchored, other) refl
    ]

    -- On a file of words that each have blanks after them, where no word and neither name holds a
    -- slash or a NUL and all bytes of the block are the file's, `GetValue` answers as the lookup among
    -- the words: it takes the first word that is the section's name, wants a word that begins with
    -- an opening brace after it, takes the first word from there on that is the key, wants a word that
    -- begins with `=` after it, and reads the value at the next word; it answers false when one of
    -- these is missing, and does not read outside the block while it searches. A closing brace does
    -- not end the search for the key.
    pub get_value-lookup_at :
        (c : ℕ) (section indent : List ℕ) (ps : List Piece)
        → Solid (c ∷ section)
        → Blank indent
        → AllPieces ps
        → get_value get (c ∷ section) (d ∷ key) (load_file (indent ++ render ps []) [])
          ≡ lookup_at (d ∷ key) (seek (c ∷ section) ps) nul
    unfolding get_value
    get_value-lookup_at c section indent ps w b h =
        let (fuel, found) = find_word-render (c ∷ section) indent ps nul w b h nul-Anchored in
        rw (load_file-render indent ps, found, word_loop-nul c section fuel w)
          (after_section-lookup_at (seek (c ∷ section) ps) (AllPieces-seek (c ∷ section) ps h))
