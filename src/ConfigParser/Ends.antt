-- ===== src/ConfigParser/Ends.antt =====
-- The loops of JunCommon/algorithm/Parser.cpp end.
use jun_core_v.Common.{
  ℕ, zero, suc, ◌+◌, ◌-◌, ◌*◌, ◌≤◌, ◌<◌, ◌≡◌, ◌≢◌, refl, List, [], ◌∷◌, Bool, true, false, Option,
  not, ◌==◌, arith, length, if◌then◌else◌,
}
use jun_core_v.ConfigParser.{
  Outcome, returned, out_of_bounds, overflow, out_of_fuel, is_space, find_char, find_space,
  next_char, word_loop, find_word, read, int_loop, get_value_int, str_loop, get_value_str,
  after_key, after_section, get_value, ◌>>=◌,
}

length-find_char : (b : Bool) (cur : List ℕ) → length (find_char b cur).1 ≤ length cur
unfolding find_char
length-find_char b [] = omega arith
length-find_char true (c ∷ cur) = omega (arith, length-find_char (not (c == 10)) cur)
length-find_char false (c ∷ cur) =
    ground (arith, length-find_char true cur, length-find_char false cur)

length-find_space : (b : Bool) (cur : List ℕ) → length (find_space b cur).1 ≤ length cur
unfolding find_space
length-find_space b [] = omega arith
length-find_space true (c ∷ cur) = omega (arith, length-find_space (not (c == 10)) cur)
length-find_space false (c ∷ cur) =
    ground (arith, length-find_space true cur, length-find_space false cur)

pub find_char_space :
    (c : ℕ) (cur : List ℕ) → is_space c ≡ true → find_char false (c ∷ cur) ≡ find_char false cur
unfolding find_char
find_char_space c cur h = ground arith

-- At the space that `FindSpace` has found, `FindChar` moves on.
length-find_char-find_space :
    (b : Bool) (cur : List ℕ)
    → (find_space b cur).0 ≡ true
    → length (find_char false (find_space b cur).1).1 < length cur
unfolding find_space
length-find_char-find_space b [] h = cc
length-find_char-find_space true (c ∷ cur) h =
    omega (arith, length-find_char-find_space (not (c == 10)) cur h)
length-find_char-find_space false (c ∷ cur) h = ground (
  arith,
  find_char_space c cur,
  length-find_char false cur,
  length-find_char-find_space true cur,
  length-find_char-find_space false cur,
)

length-next_char : (cur : List ℕ) → (next_char cur).0 ≡ true → length (next_char cur).1 < length cur
unfolding next_char
length-next_char cur h = ground (arith, length-find_char-find_space false cur)

word_loop_ends :
    (fuel : ℕ) (word cur : List ℕ) → length cur < fuel → word_loop fuel word cur ≢ out_of_fuel
unfolding word_loop
word_loop_ends zero word cur h = absurd (omega arith)
word_loop_ends (suc fuel) word cur h =
    ground (arith, length-next_char cur, word_loop_ends fuel word (next_char cur).1)

find_word_ends : (word cur : List ℕ) → find_word word cur ≢ out_of_fuel
unfolding find_word
find_word_ends word cur =
    ground
      (arith, word_loop_ends (suc (length (find_char false cur).1)) word (find_char false cur).1)

int_loop_ends : (value : ℕ) (cur : List ℕ) → int_loop value cur ≢ out_of_fuel
unfolding int_loop
int_loop_ends value [] = ground arith
int_loop_ends value (c ∷ cur) = ground (arith, int_loop_ends (value * 10 + (c - 48)) cur)

get_value_int_ends : (cur : List ℕ) → get_value_int cur ≢ out_of_fuel
unfolding get_value_int
get_value_int_ends [] = ground arith
get_value_int_ends (c ∷ cur) = ground (arith, int_loop_ends 0 (c ∷ cur))

str_loop_ends : (cur : List ℕ) → str_loop cur ≢ out_of_fuel
unfolding str_loop
str_loop_ends [] = ground arith
str_loop_ends (c ∷ cur) = ground (arith, str_loop_ends cur)

get_value_str_ends : (cur : List ℕ) → get_value_str cur ≢ out_of_fuel
unfolding get_value_str
get_value_str_ends [] = ground arith
get_value_str_ends (c ∷ cur) = ground (arith, str_loop_ends cur)

bind_ends :
    {A B : Type 0} (m : Outcome A) (f : A → Outcome B)
    → m ≢ out_of_fuel
    → ((a : A) → f a ≢ out_of_fuel)
    → (m >>= f) ≢ out_of_fuel
bind_ends (returned a) f h k = k a
bind_ends out_of_bounds f h k = λ e. cc
bind_ends overflow f h k = λ e. cc
bind_ends out_of_fuel f h k = λ e. h refl

if_ends :
    {A : Type 0} (b : Bool) (m m' : Outcome A)
    → m ≢ out_of_fuel
    → m' ≢ out_of_fuel
    → (if b then m else m') ≢ out_of_fuel
if_ends true m m' h k = h
if_ends false m m' h k = k

read_ends : (cur : List ℕ) → read cur ≢ out_of_fuel
read_ends [] = λ e. cc
read_ends (c ∷ cur) = λ e. cc

module _ {V : Type 0} (get : List ℕ → Outcome (Option V))
    (ends : (cur : List ℕ) → get cur ≢ out_of_fuel) where
  after_key_ends : (at : Bool × List ℕ) → after_key get at ≢ out_of_fuel
  unfolding after_key
  after_key_ends (false, cur) = λ e. cc
  after_key_ends (true, cur) =
      bind_ends _ _ (read_ends (next_char cur).1)
        λ c. if_ends (c == b'=') _ _ (ends (next_char (next_char cur).1).1) (λ e. cc)

  after_section_ends : (key : List ℕ) (at : Bool × List ℕ) → after_section get key at ≢ out_of_fuel
  unfolding after_section
  after_section_ends key (false, cur) = λ e. cc
  after_section_ends key (true, cur) = bind_ends _ _ (read_ends (next_char cur).1) λ c.
      if_ends (c == b'{') _ _ (bind_ends _ _ (find_word_ends key (next_char cur).1) after_key_ends)
        (λ e. cc)

  get_value_of_ends : (section key block : List ℕ) → get_value get section key block ≢ out_of_fuel
  unfolding get_value
  get_value_of_ends section key block =
      bind_ends _ _ (find_word_ends section block) (after_section_ends key)

-- For every file, section and key both forms of `GetValue` end, whatever they come to.
pub get_value_ends :
    (section key block : List ℕ)
    → (get_value get_value_int section key block ≢ out_of_fuel)
      × (get_value get_value_str section key block ≢ out_of_fuel)
get_value_ends section key block = (
  get_value_of_ends get_value_int get_value_int_ends section key block,
  get_value_of_ends get_value_str get_value_str_ends section key block,
)
