-- ===== src/ProtocolBuffer/Stream.antt =====
-- What ProtocolBuffer.cpp holds between calls, and the two transfers that all others go through.
use jun_core_v.Common.{
  ℕ, ◌+◌, ◌-◌, ◌≤◌, ◌<◌, ◌≡◌, refl, sym, ap, ap₂, ◌∙◌, ◌⊎◌, inl, ◌↔◌, List, ◌++◌, true, none, some,
  length, take, drop, take-append, drop-append, arith,
}
use jun_core_v.Common.Memory.{
  Memory, read_bytes, write_bytes, length-read_bytes, read_bytes-write_bytes, read_bytes_congr,
  read_bytes-add, write_bytes_outside,
}
use jun_core_v.ProtocolBuffer.{
  ProtocolBuffer, protocol_buffer, clear, empty, full, get_free_size, get_use_size, put_data,
  get_data,
}

abbrev pub IsValid : ProtocolBuffer → Type 0
IsValid b =
    (b.begin ≤ b.read_pos)
    × (b.read_pos ≤ b.write_pos)
    × (b.write_pos ≤ b.end)
    × (b.end ≡ b.begin + b.buf_size)

-- The bytes written and not yet read, oldest first.
unfoldable pub contents : ProtocolBuffer → List ℕ
contents b = read_bytes b.memory b.read_pos (get_use_size b)

pub length-contents : (b : ProtocolBuffer) → length (contents b) ≡ get_use_size b
unfolding contents
length-contents b = length-read_bytes b.memory b.read_pos (get_use_size b)

pub protocol_buffer-IsValid :
    (memory : Memory) (begin size : ℕ) → IsValid (protocol_buffer memory begin size)
unfolding protocol_buffer
protocol_buffer-IsValid memory begin size = omega arith

pub clear-IsValid : (b : ProtocolBuffer) → IsValid b → IsValid (clear b)
unfolding clear
clear-IsValid b v = omega arith

-- What a write of `src` leaves behind.
pub record Written (b : ProtocolBuffer) (src : List ℕ) (b' : ProtocolBuffer) : Type 0 where
  pub valid : IsValid b'
  pub appended : contents b' ≡ contents b ++ src
  pub room : get_free_size b' ≡ get_free_size b - length src
  pub total : b'.buf_size ≡ b.buf_size
  pub outside :
      (a : ℕ) → (a < b.write_pos) ⊎ (b.write_pos + length src ≤ a) → b'.memory a ≡ b.memory a

-- What a read of `size` bytes leaves behind.
pub record Read (b : ProtocolBuffer) (size : ℕ) (b' : ProtocolBuffer) : Type 0 where
  pub valid : IsValid b'
  pub left : contents b' ≡ drop size (contents b)
  pub room : get_free_size b' ≡ get_free_size b
  pub total : b'.buf_size ≡ b.buf_size

abbrev after_put : List ℕ → ProtocolBuffer → ProtocolBuffer
after_put src b = record b {
  memory = write_bytes b.memory b.write_pos src;
  write_pos = b.write_pos + length src;
}

after_put-Written :
    (b : ProtocolBuffer) (src : List ℕ)
    → IsValid b
    → length src ≤ get_free_size b
    → Written b src (after_put src b)
unfolding contents
after_put-Written b src v h = record {
  valid = omega arith;
  appended =
      ap (read_bytes (after_put src b).memory b.read_pos) more
      ∙ read_bytes-add (after_put src b).memory b.read_pos (get_use_size b) (length src)
      ∙ ap₂ ◌++◌ before behind;
  room = omega arith;
  total = refl;
  outside = write_bytes_outside b.memory b.write_pos src;
}
  where
    more : get_use_size (after_put src b) ≡ get_use_size b + length src
    more = omega arith

    before :
        read_bytes (after_put src b).memory b.read_pos (get_use_size b)
        ≡ read_bytes b.memory b.read_pos (get_use_size b)
    before =
        read_bytes_congr _ _ b.read_pos (get_use_size b)
          (λ a p q. write_bytes_outside b.memory b.write_pos src a (inl (omega arith)))

    here : b.read_pos + get_use_size b ≡ b.write_pos
    here = omega arith

    behind : read_bytes (after_put src b).memory (b.read_pos + get_use_size b) (length src) ≡ src
    behind =
        ap (λ a. read_bytes (after_put src b).memory a (length src)) here
        ∙ read_bytes-write_bytes b.memory b.write_pos src

-- A write that fits appends its bytes to what is held, and touches no other byte of memory.
pub put_data_fits :
    (b : ProtocolBuffer) (src : List ℕ)
    → IsValid b
    → length src ≤ get_free_size b
    → (b' : ProtocolBuffer) × (put_data src b ≡ some b') × Written b src b'
unfolding put_data
put_data_fits b src v h = (after_put src b, ground arith, after_put-Written b src v h)

pub put_data_throws :
    (b : ProtocolBuffer) (src : List ℕ)
    → IsValid b
    → get_free_size b < length src
    → put_data src b ≡ none
unfolding put_data
put_data_throws b src v h = ground arith

abbrev after_get : ℕ → ProtocolBuffer → ProtocolBuffer
after_get size b = record b { read_pos = b.read_pos + size }

contents-split :
    (b : ProtocolBuffer) (size : ℕ)
    → IsValid b
    → size ≤ get_use_size b
    → contents b ≡ read_bytes b.memory b.read_pos size ++ contents (after_get size b)
unfolding contents
contents-split b size v h =
    let e : get_use_size b ≡ size + get_use_size (after_get size b) = omega arith in
    ap (read_bytes b.memory b.read_pos) e
    ∙ read_bytes-add b.memory b.read_pos size (get_use_size (after_get size b))

-- A read of no more than is held returns the oldest bytes and takes them out.
pub get_data_fits :
    (b : ProtocolBuffer) (size : ℕ)
    → IsValid b
    → size ≤ get_use_size b
    → (b' : ProtocolBuffer) × (get_data size b ≡ some (take size (contents b), b')) × Read b size b'
unfolding get_data
get_data_fits b size v h = (
  after_get size b,
  answer,
  record {
    valid = omega arith;
    left = sym (
        ap (drop size) (contents-split b size v h)
        ∙ drop-append size out (contents (after_get size b)) len);
    room = refl;
    total = refl;
  },
)
  where
    out : List ℕ
    out = read_bytes b.memory b.read_pos size

    len : size ≡ length out
    len = sym (length-read_bytes b.memory b.read_pos size)

    oldest : take size (contents b) ≡ out
    oldest =
        ap (take size) (contents-split b size v h)
        ∙ take-append size out (contents (after_get size b)) len

    answer : get_data size b ≡ some (take size (contents b), after_get size b)
    answer = rw oldest (ground arith)

pub get_data_throws :
    (b : ProtocolBuffer) (size : ℕ) → IsValid b → get_use_size b < size → get_data size b ≡ none
unfolding get_data
get_data_throws b size v h = ground arith

-- `Empty` says whether nothing is held, but `Full` says whether exactly one byte is free.
pub empty-full :
    (b : ProtocolBuffer)
    → IsValid b
    → ((empty b ≡ true) ↔ (get_use_size b ≡ 0)) × ((full b ≡ true) ↔ (get_free_size b ≡ 1))
unfolding empty full
empty-full b v = (ground arith, ground arith)
