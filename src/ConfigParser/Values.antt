-- ===== src/ConfigParser/Values.antt =====
-- The values that JunCommon/algorithm/Parser.cpp reads.
use jun_core_v.Common.{
  ℕ, zero, suc, ◌+◌, ◌*◌, ◌/◌, ◌%◌, ◌^◌, ◌<◌, ◌≡◌, ◌≢◌, refl, ap, ◌∙◌, List, [], ◌∷◌, ◌++◌,
  append_assoc, true, false, Option, some, ◌==◌, ltb, arith, Bool-cases, inl, inr, if◌then◌else◌,
}
use jun_core_v.ConfigParser.{
  Outcome, returned, out_of_bounds, find_word, after_key, after_section, get_value, ◌>>=◌,
  find_char, is_digit, int_loop, get_value_int, str_loop, get_value_str,
}
use jun_core_v.ConfigParser.Words.{
  Blank, Piece, AllPieces, render, seek, Anchored, find_word-render, next_char-render, word,
  same_word,
}
use jun_core_v.ConfigParser.Lookup.{after_key-render, value_at}

same_word_refl : (w : List ℕ) → same_word w w ≡ true
same_word_refl [] = refl
same_word_refl (c ∷ w) = ground (arith, same_word_refl w)

seek-append :
    (before : List Piece) (p : Piece) (ps : List Piece)
    → seek (word p) before ≡ []
    → seek (word p) (before ++ (p ∷ ps)) ≡ p ∷ ps
unfolding seek
seek-append [] p ps h = rw (same_word_refl (word p)) refl
seek-append (x ∷ before) p ps h = ground (arith, seek-append before p ps)

-- A section: what stands before it, its name and brace, what stands before the key, and the key with
-- its `=`.
pub record Entry : Type 0 where
  pub before : List Piece
  pub name : Piece
  pub brace : Piece
  pub inner : List Piece
  pub key : Piece
  pub equals : Piece

abbrev pub from_brace : Entry → List Piece
from_brace e = (e.brace ∷ e.inner) ++ (e.key ∷ e.equals ∷ [])

abbrev pub pieces : Entry → List Piece
pieces e = e.before ++ (e.name ∷ from_brace e)

-- The section is the first with its name, and the key the first from the brace on.
pub record IsFirst (e : Entry) : Type 0 where
  pub shaped : AllPieces (pieces e)
  pub section_first : seek (word e.name) e.before ≡ []
  pub opens : e.brace.first ≡ b'{'
  pub key_first : seek (word e.key) (e.brace ∷ e.inner) ≡ []
  pub equals_sign : e.equals.first ≡ b'='

AllPieces-drop : (before ps : List Piece) → AllPieces (before ++ ps) → AllPieces ps
AllPieces-drop [] ps h = h
AllPieces-drop (x ∷ before) ps h = AllPieces-drop before ps h.1

module _ {V : Type 0} (get : List ℕ → Outcome (Option V)) where
  module _ (e : Entry) (f : IsFirst e) (tail : List ℕ) (t : Anchored tail) where
    from_name : AllPieces (e.name ∷ from_brace e)
    from_name = AllPieces-drop e.before (e.name ∷ from_brace e) f.shaped

    from_key : AllPieces (e.key ∷ e.equals ∷ [])
    from_key = AllPieces-drop (e.brace ∷ e.inner) (e.key ∷ e.equals ∷ []) from_name.1

    key_found : (find_word (word e.key) (render (from_brace e) tail) >>= after_key get) ≡ get tail
    unfolding value_at render
    key_found =
        let (fuel, found) =
          find_word-render (word e.key) [] (from_brace e) tail from_key.0.0 tt from_name.1 t in
        rw (found, seek-append (e.brace ∷ e.inner) e.key (e.equals ∷ []) f.key_first)
          (after_key-render get e.key e.equals [] tail from_key t ∙ rw f.equals_sign refl)

    brace_found :
        after_section get (word e.key) (true, render (e.name ∷ from_brace e) tail) ≡ get tail
    unfolding after_section render
    brace_found =
        let open_brace : (e.brace.first == b'{') ≡ true = ground (arith, f.opens) in
        rw (next_char-render e.name (from_brace e) tail from_name t, open_brace) key_found

    section_found :
        (indent : List ℕ)
        → Blank indent
        → get_value get (word e.name) (word e.key) (indent ++ render (pieces e) tail) ≡ get tail
    unfolding get_value
    section_found indent b =
        let (fuel, found) =
          find_word-render (word e.name) indent (pieces e) tail from_name.0.0 b f.shaped t in
        rw (found, seek-append e.before e.name (from_brace e) f.section_first) brace_found

abbrev append_digit : List ℕ → ℕ → List ℕ
append_digit ds d = ds ++ ((b'0' + d) ∷ [])

-- The decimal digits of a number.
unfoldable pub print : ℕ → ℕ → List ℕ
print zero n = []
print (suc fuel) n =
    let front = print fuel (n / 10) in
    if ltb n 10 then append_digit [] n else append_digit front (n % 10)

-- What stands after a number.
abbrev pub Ended : List ℕ → Type 0
Ended [] = ⊥
Ended (c ∷ cur) = is_digit c ≡ false

int_loop_digit :
    (value d : ℕ) (cur : List ℕ)
    → d < 10
    → value * 10 + d < 2 ^ 31
    → int_loop value ((b'0' + d) ∷ cur) ≡ int_loop (value * 10 + d) cur
unfolding int_loop
int_loop_digit value d cur h k = ground arith

int_loop-print :
    (fuel n : ℕ) (cur : List ℕ)
    → n < fuel
    → n < 2 ^ 31
    → int_loop 0 (print fuel n ++ cur) ≡ int_loop n cur
unfolding print
int_loop-print zero n cur h k = absurd (omega arith)
int_loop-print (suc fuel) n cur h k = elim (Bool-cases (ltb n 10)) [
  | inl e ↦
      rw e (
        int_loop_digit 0 n cur (ground arith) (omega arith)
        ∙ ap (λ v. int_loop v cur) (omega arith))
  | inr e ↦ rw e (
      ap (int_loop 0) (append_assoc (print fuel (n / 10)) ((b'0' + n % 10) ∷ []) cur)
      ∙ int_loop-print fuel (n / 10) ((b'0' + n % 10) ∷ cur) (ground arith) (omega arith)
      ∙ int_loop_digit (n / 10) (n % 10) cur (omega arith) (omega arith)
      ∙ ap (λ v. int_loop v cur) (omega arith))
]

int_loop_end : (n : ℕ) (cur : List ℕ) → Ended cur → int_loop n cur ≡ returned (some n)
unfolding int_loop
int_loop_end n [] h = absurd h
int_loop_end n (c ∷ cur) h = rw h refl

-- A printed number begins with a digit.
abbrev StartsWithDigit : List ℕ → Type 0
StartsWithDigit [] = ⊥
StartsWithDigit (c ∷ cur) = is_digit c ≡ true

print-StartsWithDigit :
    (fuel n : ℕ) (cur : List ℕ) → n < fuel → StartsWithDigit (print fuel n ++ cur)
unfolding print
print-StartsWithDigit zero n cur h = absurd (omega arith)
print-StartsWithDigit (suc fuel) n cur h = elim (Bool-cases (ltb n 10)) [
  | inl e ↦ rw e (ground (arith, e))
  | inr e ↦ rw e (
      rw (append_assoc (print fuel (n / 10)) ((b'0' + n % 10) ∷ []) cur)
        (print-StartsWithDigit fuel (n / 10) ((b'0' + n % 10) ∷ cur) (ground arith)))
]

digit-Anchored : (cur : List ℕ) → StartsWithDigit cur → Anchored cur
unfolding find_char
digit-Anchored [] h = absurd h
digit-Anchored (c ∷ cur) h = ground arith

get_value_int_digit : (cur : List ℕ) → StartsWithDigit cur → get_value_int cur ≡ int_loop 0 cur
unfolding get_value_int
get_value_int_digit [] h = absurd h
get_value_int_digit (c ∷ cur) h = rw h refl

-- A number below 2³¹ that is printed in decimal after the first occurrence of its key in the first
-- section of its name is read back, if up to the number the file is words without slashes that each
-- have blanks after them, and what follows the number does not begin with a digit.
pub get_value_int-print :
    (e : Entry) (indent : List ℕ) (n : ℕ) (rest : List ℕ)
    → IsFirst e
    → Blank indent
    → n < 2 ^ 31
    → Ended rest
    → get_value get_value_int
        (word e.name)
        (word e.key)
        (indent ++ render (pieces e) (print (suc n) n ++ rest))
      ≡ returned (some n)
get_value_int-print e indent n rest f b small stop =
    let start = print-StartsWithDigit (suc n) n rest (omega arith) in
    section_found get_value_int e f (print (suc n) n ++ rest) (digit-Anchored _ start) indent b
    ∙ get_value_int_digit (print (suc n) n ++ rest) start
    ∙ int_loop-print (suc n) n rest (omega arith) small
    ∙ int_loop_end n rest stop

-- Texts without a quotation mark.
abbrev pub Unquoted : List ℕ → Type 0
Unquoted [] = Unit {0}
Unquoted (c ∷ s) = (c ≢ b'"') × Unquoted s

quote-Anchored : (s : List ℕ) → Anchored (b'"' ∷ s)
unfolding find_char
quote-Anchored s = refl

str_loop-quoted : (s rest : List ℕ) → Unquoted s → str_loop (s ++ (b'"' ∷ rest)) ≡ returned (some s)
unfolding str_loop
str_loop-quoted [] rest u = refl
str_loop-quoted (c ∷ s) rest u = ground (arith, str_loop-quoted s rest u.1)

str_loop_runs_out : (s : List ℕ) → Unquoted s → str_loop s ≡ out_of_bounds
unfolding str_loop
str_loop_runs_out [] u = refl
str_loop_runs_out (c ∷ s) u = ground (arith, str_loop_runs_out s u.1)

-- A string between quotation marks after the first occurrence of its key in the first section of its
-- name is read back, if up to the string the file is words without slashes that each have blanks
-- after them; if the second mark is missing, and there is none in the rest of the file, then
-- `GetValueStr` reads outside the block.
pub get_value_str-quoted :
    (e : Entry) (indent s rest : List ℕ)
    → IsFirst e
    → Blank indent
    → Unquoted s
    → (get_value get_value_str
          (word e.name)
          (word e.key)
          (indent ++ render (pieces e) (b'"' ∷ (s ++ (b'"' ∷ rest))))
        ≡ returned (some s))
      × (get_value get_value_str (word e.name) (word e.key) (indent ++ render (pieces e) (b'"' ∷ s))
          ≡ out_of_bounds)
unfolding get_value_str
get_value_str-quoted e indent s rest f b u = (
  section_found get_value_str e f (b'"' ∷ (s ++ (b'"' ∷ rest))) (quote-Anchored _) indent b
      ∙ str_loop-quoted s rest u,
  section_found get_value_str e f (b'"' ∷ s) (quote-Anchored _) indent b ∙ str_loop_runs_out s u,
)
