-- ===== src/ProtocolBuffer.antt =====
-- JunCommon/network/ProtocolBuffer.h and ProtocolBuffer.cpp: a buffer that objects are written to
-- and read from in order. The pointers of the class are addresses, and `memmove` acts on the memory
-- that the record carries. An object is the unsigned number of its bytes, also where its type is
-- signed or floating. A call that reaches `throw;`, which has no exception to throw again and ends
-- the program, answers `none`. Sizes are not negative, and texts shorter than 2 ^ 31 bytes.
pub mod Stream
pub mod Refine
pub mod Roundtrip
mod Tests
use jun_core_v.Common.{
  ℕ, ◌+◌, ◌-◌, List, [], ◌∷◌, ◌++◌, Bool, true, false, leb, ◌==◌, if◌then◌else◌, length, Option,
  none, some,
}
use jun_core_v.Common.Memory.{Memory, read_bytes, write_bytes}
use jun_core_v.Common.LittleEndian.{le_bytes, le_value}

pub record ProtocolBuffer : Type 0 where
  pub memory : Memory
  pub begin : ℕ
  pub end : ℕ
  pub buf_size : ℕ
  pub write_pos : ℕ
  pub read_pos : ℕ

-- The types that `<<` and `>>` are overloaded for.
pub data Scalar : Type 0 where
  char unsigned_char int unsigned_int long unsigned_long : Scalar
  short unsigned_short float double long_long unsigned_long_long : Scalar

-- `sizeof`, on Windows
abbrev pub size_of : Scalar → ℕ
size_of char = 1
size_of unsigned_char = 1
size_of int = 4
size_of unsigned_int = 4
size_of long = 4
size_of unsigned_long = 4
size_of short = 2
size_of unsigned_short = 2
size_of float = 4
size_of double = 8
size_of long_long = 8
size_of unsigned_long_long = 8

-- The constructor, with the address that `malloc` returned.
pub protocol_buffer : Memory → ℕ → ℕ → ProtocolBuffer
protocol_buffer memory begin size = record {
  memory = memory;
  begin = begin;
  end = begin + size;
  buf_size = size;
  write_pos = begin;
  read_pos = begin;
}

pub clear : ProtocolBuffer → ProtocolBuffer
clear b = record b { write_pos = b.begin; read_pos = b.begin }

pub empty : ProtocolBuffer → Bool
empty b = if leb b.write_pos b.read_pos then true else false

pub full : ProtocolBuffer → Bool
full b = if b.write_pos + 1 == b.end then true else false

abbrev pub get_free_size : ProtocolBuffer → ℕ
get_free_size b = b.end - b.write_pos

abbrev pub get_use_size : ProtocolBuffer → ℕ
get_use_size b = b.write_pos - b.read_pos

abbrev pub get_buf_size : ProtocolBuffer → ℕ
get_buf_size b = b.buf_size

abbrev pub move_wp : ℕ → ProtocolBuffer → ProtocolBuffer
move_wp size b = record b { write_pos = b.write_pos + size }

abbrev pub move_rp : ℕ → ProtocolBuffer → ProtocolBuffer
move_rp size b = record b { read_pos = b.read_pos + size }

-- `src` is the list of the `size` bytes at the caller's pointer.
pub put_data : List ℕ → ProtocolBuffer → Option ProtocolBuffer
put_data src b =
    if leb (b.write_pos + length src) b.end
    then some (record b {
      memory = write_bytes b.memory b.write_pos src;
      write_pos = b.write_pos + length src;
    })
    else none

-- The bytes are what the call copies to `dst`.
pub get_data : ℕ → ProtocolBuffer → Option (List ℕ × ProtocolBuffer)
get_data size b =
    if leb (b.read_pos + size) b.write_pos
    then some (read_bytes b.memory b.read_pos size, record b { read_pos = b.read_pos + size })
    else none

-- The overloads of `<<` for objects: the bytes of the object.
unfoldable pub put : Scalar → ℕ → ProtocolBuffer → Option ProtocolBuffer
put t value b = put_data (le_bytes (size_of t) value) b

-- The characters before the NUL, which is not written.
unfoldable pub put_str : List ℕ → ProtocolBuffer → Option ProtocolBuffer
put_str str b = put_data str b

-- The bytes of a text of 16-bit characters.
unfoldable pub wide_bytes : List ℕ → List ℕ
wide_bytes [] = []
wide_bytes (c ∷ str) = le_bytes 2 c ++ wide_bytes str

unfoldable pub put_wstr : List ℕ → ProtocolBuffer → Option ProtocolBuffer
put_wstr str b = put_data (wide_bytes str) b

-- The overloads of `>>`, which read an object back from its bytes.
unfoldable pub get : Scalar → ProtocolBuffer → Option (ℕ × ProtocolBuffer)
get t b = elim (get_data (size_of t) b) [
  | none ↦ none
  | some (bytes, b') ↦ some (le_value bytes, b')
]
