-- ===== src/ConfigParser/Tests.antt =====
-- JunCommon/algorithm/Parser.cpp at concrete files.
use jun_core_v.Common.{ℕ, ◌≡◌, ◌≢◌, refl, List, [], ◌∷◌, ◌++◌, some, true, arith}
use jun_core_v.ConfigParser.{
  returned, out_of_bounds, out_of_fuel, get_value, get_value_int, get_value_str, load_file,
  find_word, word_loop, is_word, after_word, after_key, after_section, next_char, find_char,
  find_space, int_loop,
}
use jun_core_v.ConfigParser.Words.{Piece, render, seek, AllPieces}
use jun_core_v.ConfigParser.Lookup.{get_value-lookup_at, lookup_at, value_at, nul}
use jun_core_v.ConfigParser.Ends.{get_value_ends}
use jun_core_v.ConfigParser.Values.{Entry, IsFirst}

abbrev piece : ℕ → Piece
piece c = record { first = c; others = []; blank = 10; blanks = 32 ∷ [] }

-- A section `A` without the key, and a section `B` with it.
abbrev two_sections : List Piece
two_sections =
    piece b'A'
    ∷ piece b'{'
    ∷ piece b'}'
    ∷ piece b'B'
    ∷ piece b'{'
    ∷ piece b'K'
    ∷ piece b'='
    ∷ piece b'7'
    ∷ piece b'}'
    ∷ []

two_sections-AllPieces : AllPieces two_sections
two_sections-AllPieces = ground arith

-- The key of the later section answers for the earlier one.
crosses_sections :
    lookup_at get_value_int (b'K' ∷ []) (seek (b'A' ∷ []) two_sections) nul ≡ returned (some 7)
unfolding lookup_at seek value_at render get_value_int int_loop
crosses_sections = refl

get_value-lookup_at_example :
    get_value get_value_int
      (b'A' ∷ [])
      (b'K' ∷ [])
      (load_file ((32 ∷ []) ++ render two_sections []) [])
    ≡ lookup_at get_value_int (b'K' ∷ []) (seek (b'A' ∷ []) two_sections) nul
get_value-lookup_at_example =
    get_value-lookup_at get_value_int b'K' [] (ground arith) b'A' [] (32 ∷ []) two_sections
      (ground arith) (ground arith) two_sections-AllPieces

get_value_ends_example :
    (get_value get_value_int (b'A' ∷ []) (b'K' ∷ []) (load_file [] []) ≢ out_of_fuel)
    × (get_value get_value_str (b'A' ∷ []) (b'K' ∷ []) (load_file [] []) ≢ out_of_fuel)
get_value_ends_example = get_value_ends (b'A' ∷ []) (b'K' ∷ []) (load_file [] [])

abbrev entry : Entry
entry = record {
  before = piece b'B' ∷ [];
  name = piece b'A';
  brace = piece b'{';
  inner = piece b'}' ∷ piece b'A' ∷ [];
  key = piece b'K';
  equals = piece b'=';
}

entry-IsFirst : IsFirst entry
unfolding seek
entry-IsFirst = record {
  shaped = ground arith;
  section_first = refl;
  opens = refl;
  key_first = refl;
  equals_sign = refl;
}

-- A comment that ends the file right after the section's name: the next read is outside the block.
comment_at_end :
    get_value get_value_int
      (b'A' ∷ [])
      (b'K' ∷ [])
      (load_file (b'A' ∷ 32 ∷ b'/' ∷ b'/' ∷ b'x' ∷ []) [])
    ≡ out_of_bounds
unfolding get_value find_word word_loop is_word after_word after_key after_section next_char
    find_char find_space load_file
comment_at_end = refl

-- After a comment that touches a word, the next line's first word is passed over.
comment_hides_word :
    next_char (b'3' ∷ b'/' ∷ b'/' ∷ 10 ∷ b'K' ∷ 32 ∷ b'=' ∷ 0 ∷ []) ≡ (true, b'=' ∷ 0 ∷ [])
unfolding next_char find_char find_space
comment_hides_word = refl
