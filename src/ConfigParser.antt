-- ===== src/ConfigParser.antt =====
-- JunCommon/algorithm/Parser.cpp: values of a configuration file, looked up by section and key. A
-- pointer into the block that holds the file is the list of the bytes from it to the end of the
-- block, whose last byte is the NUL that `LoadFile` appends; `fileEnd` is the empty list.
pub mod Ends
pub mod Words
pub mod Lookup
pub mod Values
mod Tests
use jun_core_v.Common.{
  ℕ, zero, suc, ◌+◌, ◌-◌, ◌*◌, ◌^◌, List, [], ◌∷◌, ◌++◌, Bool, true, false, not, ◌&&◌, ◌||◌, Option,
  none, some, ◌==◌, ltb, leb, length, if◌then◌else◌,
}

-- What a run of the code comes to: it returns, reads outside the block, or leaves the range of
-- `int`. `out_of_fuel` is no behaviour of the program.
pub data Outcome {ℓ} (A : Type ℓ) : Type ℓ where
  returned : A → Outcome A
  out_of_bounds overflow out_of_fuel : Outcome A

infixl 5 ◌>>=◌
abbrev pub ◌>>=◌ {ℓ κ} : {A : Type ℓ} {B : Type κ} → Outcome A → (A → Outcome B) → Outcome B
returned a >>= f = f a
out_of_bounds >>= f = out_of_bounds
overflow >>= f = overflow
out_of_fuel >>= f = out_of_fuel

abbrev pub is_space : ℕ → Bool
is_space c = c == b' ' || c == 10 || c == 9

-- Two slashes begin a comment.
abbrev pub is_slash : List ℕ → Bool
is_slash [] = false
is_slash (c ∷ cur) = c == b'/'

-- `FindChar`; the flag says that the inner loop runs, which passes the rest of a comment, and stops
-- at the line's end, which the outer loop then passes.
unfoldable pub find_char : Bool → List ℕ → Bool × List ℕ
find_char in_comment [] = (false, [])
find_char true (c ∷ cur) = find_char (not (c == 10)) cur
find_char false (c ∷ cur) =
    let comment = find_char true cur in
    let blank = find_char false cur in
    if c == b'/' && is_slash cur then comment else if is_space c then blank else (true, c ∷ cur)

unfoldable pub find_space : Bool → List ℕ → Bool × List ℕ
find_space in_comment [] = (false, [])
find_space true (c ∷ cur) = find_space (not (c == 10)) cur
find_space false (c ∷ cur) =
    let comment = find_space true cur in
    let other = find_space false cur in
    if c == b'/' && is_slash cur then comment else if is_space c then (true, c ∷ cur) else other

-- `NextChar`
unfoldable pub next_char : List ℕ → Bool × List ℕ
next_char cur =
    let (found, space) = find_space false cur in
    if found then find_char false space else (false, space)

-- What follows `word`, if `strncmp` finds it at `cur`.
unfoldable pub after_word : List ℕ → List ℕ → Option (List ℕ)
after_word [] cur = some cur
after_word (w ∷ word) [] = none
after_word (w ∷ word) (c ∷ cur) = if w == c then after_word word cur else none

abbrev starts_with_space : Option (List ℕ) → Bool
starts_with_space none = false
starts_with_space (some []) = false
starts_with_space (some (c ∷ cur)) = is_space c

unfoldable pub is_word : List ℕ → List ℕ → Bool
is_word word cur = starts_with_space (after_word word cur)

-- The loop of `FindWord`.
unfoldable pub word_loop : ℕ → List ℕ → List ℕ → Outcome (Bool × List ℕ)
word_loop zero word cur = out_of_fuel
word_loop (suc fuel) word cur =
    let rest =
      let (found, cur') = next_char cur in
      let more = word_loop fuel word cur' in if found then more else returned (false, cur') in
    if is_word word cur then returned (true, cur) else rest

-- `FindWord`
unfoldable pub find_word : List ℕ → List ℕ → Outcome (Bool × List ℕ)
find_word word cur =
    let (found, cur') = find_char false cur in
    if found then word_loop (suc (length cur')) word cur' else returned (false, cur')

-- `*fileCur`
abbrev pub read : List ℕ → Outcome ℕ
read [] = out_of_bounds
read (c ∷ cur) = returned c

abbrev pub is_digit : ℕ → Bool
is_digit c = leb b'0' c && leb c b'9'

unfoldable pub int_loop : ℕ → List ℕ → Outcome (Option ℕ)
int_loop value [] = out_of_bounds
int_loop value (c ∷ cur) =
    let more = int_loop (value * 10 + (c - b'0')) cur in
    if is_digit c
    then if ltb (value * 10 + (c - b'0')) (2 ^ 31) then more else overflow
    else returned (some value)

-- `GetValueInt`; `none` stands for false.
unfoldable pub get_value_int : List ℕ → Outcome (Option ℕ)
get_value_int cur = read cur >>= λ c. if is_digit c then int_loop 0 cur else returned none

abbrev prepend : ℕ → Option (List ℕ) → Outcome (Option (List ℕ))
prepend c none = returned none
prepend c (some s) = returned (some (c ∷ s))

unfoldable pub str_loop : List ℕ → Outcome (Option (List ℕ))
str_loop [] = out_of_bounds
str_loop (c ∷ cur) =
    let more = str_loop cur >>= prepend c in if c == b'"' then returned (some []) else more

abbrev pub rest_of : List ℕ → List ℕ
rest_of [] = []
rest_of (c ∷ cur) = cur

-- `GetValueStr`
unfoldable pub get_value_str : List ℕ → Outcome (Option (List ℕ))
get_value_str cur = read cur >>= λ c. if c == b'"' then str_loop (rest_of cur) else returned none

module _ {V : Type 0} (get : List ℕ → Outcome (Option V)) where
  -- `GetValue` after the search for the key; `get` is `GetValueInt` or `GetValueStr`.
  unfoldable pub after_key : Bool × List ℕ → Outcome (Option V)
  after_key (false, cur) = returned none
  after_key (true, at_key) = do
    let at_equals = (next_char at_key).1
    c ← read at_equals
    if c == b'=' then get (next_char at_equals).1 else returned none

  -- `GetValue` after the search for the section, and whole.
  unfoldable pub after_section : List ℕ → Bool × List ℕ → Outcome (Option V)
  after_section key (false, cur) = returned none
  after_section key (true, at_section) = do
    let at_brace = (next_char at_section).1
    c ← read at_brace
    if c == b'{' then (find_word key at_brace >>= after_key) else returned none

  unfoldable pub get_value : List ℕ → List ℕ → List ℕ → Outcome (Option V)
  get_value section key block = find_word section block >>= after_section key

-- `LoadFile`: the block for what `fread` gives of a file in text mode, which turns each line end of
-- two bytes into one. The block has the file's size and one byte more, so that `left` is what
-- `malloc` left where `fread` wrote nothing.
unfoldable pub load_file : List ℕ → List ℕ → List ℕ
load_file text left = text ++ (left ++ (0 ∷ []))
