-- ===== src/ConfigParser/Words.antt =====
-- The text of a configuration file as words between blanks, without comments, and how
-- JunCommon/algorithm/Parser.cpp moves over it.
use jun_core_v.Common.{
  ℕ, suc, ◌+◌, ◌-◌, ◌≤◌, ◌≡◌, ◌≢◌, refl, ◌∙◌, List, [], ◌∷◌, ◌++◌, Bool, true, false, ◌==◌, arith,
  length, length-append, Bool-cases, inl, inr, if◌then◌else◌,
}
use jun_core_v.ConfigParser.{
  Outcome, returned, is_space, find_char, find_space, next_char, after_word, is_word, word_loop,
  find_word,
}
use jun_core_v.ConfigParser.Ends.{find_char_space}

abbrev pub Blank : List ℕ → Type 0
Blank [] = Unit {0}
Blank (c ∷ cs) = (is_space c ≡ true) × Blank cs

-- No blanks, no slashes, and no NUL.
abbrev pub Solid : List ℕ → Type 0
Solid [] = Unit {0}
Solid (c ∷ cs) = (is_space c ≡ false) × (c ≢ b'/') × (c ≢ 0) × Solid cs

-- A word with the blanks after it.
pub record Piece : Type 0 where
  pub first : ℕ
  pub others : List ℕ
  pub blank : ℕ
  pub blanks : List ℕ

abbrev pub word : Piece → List ℕ
word p = p.first ∷ p.others

abbrev pub IsPiece : Piece → Type 0
IsPiece p = Solid (word p) × (is_space p.blank ≡ true) × Blank p.blanks

abbrev pub AllPieces : List Piece → Type 0
AllPieces [] = Unit {0}
AllPieces (p ∷ ps) = IsPiece p × AllPieces ps

-- The bytes of such a piece of a file, before what else the block holds.
unfoldable pub render : List Piece → List ℕ → List ℕ
render [] tail = tail
render (p ∷ ps) tail = word p ++ (p.blank ∷ (p.blanks ++ render ps tail))

abbrev pub same_word : List ℕ → List ℕ → Bool
same_word [] [] = true
same_word [] (x ∷ xs) = false
same_word (w ∷ ws) [] = false
same_word (w ∷ ws) (x ∷ xs) = if w == x then same_word ws xs else false

-- The pieces from the first one with this word on.
unfoldable pub seek : List ℕ → List Piece → List Piece
seek w [] = []
seek w (p ∷ ps) = let rest = seek w ps in if same_word w (word p) then p ∷ ps else rest

pub find_char-Blank : (b cur : List ℕ) → Blank b → find_char false (b ++ cur) ≡ find_char false cur
find_char-Blank [] cur h = refl
find_char-Blank (c ∷ b) cur h = find_char_space c (b ++ cur) h.0 ∙ find_char-Blank b cur h.1

-- What follows does not begin with a blank or a comment.
abbrev pub Anchored : List ℕ → Type 0
Anchored tail = find_char false tail ≡ (true, tail)

pub find_char-render :
    (ps : List Piece) (tail : List ℕ) → AllPieces ps → Anchored tail → Anchored (render ps tail)
unfolding find_char render
find_char-render [] tail h t = t
find_char-render (p ∷ ps) tail h t = ground (arith, h.0.0.0, h.0.0.1)

find_space-Solid : (w cur : List ℕ) → Solid w → find_space false (w ++ cur) ≡ find_space false cur
unfolding find_space
find_space-Solid [] cur h = refl
find_space-Solid (c ∷ w) cur h = ground (arith, find_space-Solid w cur h.3)

find_space_at :
    (c : ℕ) (cur : List ℕ) → is_space c ≡ true → find_space false (c ∷ cur) ≡ (true, c ∷ cur)
unfolding find_space
find_space_at c cur h = ground arith

pub next_char-render :
    (p : Piece) (ps : List Piece) (tail : List ℕ)
    → AllPieces (p ∷ ps)
    → Anchored tail
    → next_char (render (p ∷ ps) tail) ≡ (true, render ps tail)
unfolding next_char render
next_char-render p ps tail h t =
    let after = p.blanks ++ render ps tail in
    rw (find_space-Solid (word p) (p.blank ∷ after) h.0.0, find_space_at p.blank after h.0.1)
      (find_char_space p.blank after h.0.1
        ∙ find_char-Blank p.blanks (render ps tail) h.0.2
        ∙ find_char-render ps tail h.1 t)

is_word_lem :
    (w x : List ℕ) (c : ℕ) (cur : List ℕ)
    → Solid w
    → Solid x
    → is_space c ≡ true
    → is_word w (x ++ (c ∷ cur)) ≡ same_word w x
unfolding is_word after_word
is_word_lem [] [] c cur v y h = h
is_word_lem [] (x ∷ xs) c cur v y h = y.0
is_word_lem (w ∷ ws) [] c cur v y h = ground (arith, v.0)
is_word_lem (w ∷ ws) (x ∷ xs) c cur v y h = ground (arith, is_word_lem ws xs c cur v.3 y.3 h)

pub is_word-render :
    (w : List ℕ) (p : Piece) (ps : List Piece) (tail : List ℕ)
    → Solid w
    → IsPiece p
    → is_word w (render (p ∷ ps) tail) ≡ same_word w (word p)
unfolding render
is_word-render w p ps tail v h =
    is_word_lem w (word p) p.blank (p.blanks ++ render ps tail) v h.0 h.1

-- Where the loop of `FindWord` stops among the pieces, or goes on after them.
abbrev pub stop_at : List Piece → List ℕ → Outcome (Bool × List ℕ) → Outcome (Bool × List ℕ)
stop_at [] tail beyond = beyond
stop_at (q ∷ qs) tail beyond = returned (true, render (q ∷ qs) tail)

word_loop_hit :
    (w cur : List ℕ) (fuel : ℕ)
    → is_word w cur ≡ true
    → word_loop (suc fuel) w cur ≡ returned (true, cur)
unfolding word_loop
word_loop_hit w cur fuel e = rw e

word_loop_miss :
    (w cur cur' : List ℕ) (fuel : ℕ)
    → is_word w cur ≡ false
    → next_char cur ≡ (true, cur')
    → word_loop (suc fuel) w cur ≡ word_loop fuel w cur'
unfolding word_loop
word_loop_miss w cur cur' fuel e n = rw (e, n)

pub word_loop-render :
    (w : List ℕ) (ps : List Piece) (tail : List ℕ) (fuel : ℕ)
    → Solid w
    → AllPieces ps
    → Anchored tail
    → word_loop (length ps + fuel) w (render ps tail)
      ≡ stop_at (seek w ps) tail (word_loop fuel w tail)
unfolding seek
word_loop-render w [] tail fuel v h t =
    let none_left : 0 + fuel ≡ fuel = omega arith in unfold render in rw none_left
word_loop-render w (p ∷ ps) tail fuel v h t =
    let one_more : suc (length ps) + fuel ≡ suc (length ps + fuel) = omega arith in
    elim (Bool-cases (same_word w (word p))) [
      | inl e ↦
          rw (e, one_more)
            (word_loop_hit w (render (p ∷ ps) tail) (length ps + fuel)
              (is_word-render w p ps tail v h.0 ∙ e))
      | inr e ↦
          rw (e, one_more)
            (word_loop_miss w (render (p ∷ ps) tail) (render ps tail) (length ps + fuel)
                (is_word-render w p ps tail v h.0 ∙ e) (next_char-render p ps tail h t)
              ∙ word_loop-render w ps tail fuel v h.1 t)
    ]

length-le-render : (ps : List Piece) (tail : List ℕ) → length ps ≤ length (render ps tail)
unfolding render
length-le-render [] tail = omega arith
length-le-render (p ∷ ps) tail = omega (
  arith,
  length-le-render ps tail,
  length-append p.others (p.blank ∷ (p.blanks ++ render ps tail)),
  length-append p.blanks (render ps tail),
)

-- `FindWord` among pieces, and beyond them with at least one round left.
pub find_word-render :
    (w indent : List ℕ) (ps : List Piece) (tail : List ℕ)
    → Solid w
    → Blank indent
    → AllPieces ps
    → Anchored tail
    → (fuel : ℕ) × (find_word w (indent ++ render ps tail)
        ≡ stop_at (seek w ps) tail (word_loop (suc fuel) w tail))
unfolding find_word
find_word-render w indent ps tail v b h t =
    let fuel = length (render ps tail) - length ps in
    let enough : suc (length (render ps tail)) ≡ length ps + suc fuel =
      omega (arith, length-le-render ps tail) in
    (
      fuel,
      rw (find_char-Blank indent (render ps tail) b, find_char-render ps tail h t, enough)
          (word_loop-render w ps tail (suc fuel) v h t),
    )
