-- ===== src/RingBuffer.antt =====
-- JunCommon/container/RingBuffer.h and RingBuffer.cpp: a byte ring of fixed size. The pointers of
-- the class are addresses, and a `memmove` acts on the process memory that the record carries.
pub mod Circle
pub mod Inv
pub mod Enqueue
pub mod Dequeue
pub mod Receive
pub mod Refine
mod Tests
use jun_core_v.Common.{
  ℕ, ◌+◌, ◌-◌, ◌%◌, List, ◌++◌, Bool, ltb, leb, ◌==◌, if◌then◌else◌, length, take, drop,
}
use jun_core_v.Common.Memory.{Memory, read_bytes, write_bytes}

-- `BUF_SIZE`
abbrev pub buf_size : ℕ
buf_size = 8192

-- `MASKING_BIT(n)`, which is `0x1fff & n`
abbrev pub masking_bit : ℕ → ℕ
masking_bit n = n % 8192

pub record RingBuffer : Type 0 where
  pub memory : Memory
  pub begin : ℕ
  pub end : ℕ
  pub front : ℕ
  pub rear : ℕ
  pub read_pos : ℕ
  pub write_pos : ℕ

-- The constructor, with the address that `_aligned_malloc` returned.
pub ring_buffer : Memory → ℕ → RingBuffer
ring_buffer memory begin = record {
  memory = memory;
  begin = begin;
  end = begin + buf_size;
  front = begin;
  rear = begin;
  read_pos = begin + 1;
  write_pos = begin + 1;
}

pub set_read_pos : RingBuffer → RingBuffer
set_read_pos r = record r { read_pos = r.begin + masking_bit (r.front + 1) }

pub set_write_pos : RingBuffer → RingBuffer
set_write_pos r = record r { write_pos = r.begin + masking_bit (r.rear + 1) }

pub move_front : ℕ → RingBuffer → RingBuffer
unfolding set_read_pos
move_front size r = set_read_pos (record r { front = r.begin + masking_bit (r.front + size) })

pub move_rear : ℕ → RingBuffer → RingBuffer
unfolding set_write_pos
move_rear size r = set_write_pos (record r { rear = r.begin + masking_bit (r.rear + size) })

pub is_empty : RingBuffer → Bool
is_empty r = r.front == r.rear

pub is_full : RingBuffer → Bool
is_full r = r.front == r.write_pos

-- Both positions stand one past `begin`.
pub clear : RingBuffer → RingBuffer
clear r = record r {
  front = r.begin;
  rear = r.begin;
  write_pos = r.begin + 1;
  read_pos = r.begin + 1;
}

pub direct_enqueue_size : RingBuffer → ℕ
direct_enqueue_size r =
    if ltb r.front r.write_pos then r.end - r.write_pos else r.front - r.write_pos

pub remain_enqueue_size : RingBuffer → ℕ
remain_enqueue_size r = if leb r.write_pos r.front then 0 else r.front - r.begin

pub direct_dequeue_size : RingBuffer → ℕ
direct_dequeue_size r =
    if ltb r.write_pos r.read_pos then r.end - r.read_pos else r.write_pos - r.read_pos

pub remain_dequeue_size : RingBuffer → ℕ
remain_dequeue_size r = if leb r.read_pos r.write_pos then 0 else r.write_pos - r.begin

unfoldable pub get_free_size : RingBuffer → ℕ
unfolding direct_enqueue_size remain_enqueue_size
get_free_size r = direct_enqueue_size r + remain_enqueue_size r

unfoldable pub get_use_size : RingBuffer → ℕ
unfolding direct_dequeue_size remain_dequeue_size
get_use_size r = direct_dequeue_size r + remain_dequeue_size r

-- `src` is the list of the `size` bytes at the caller's pointer.
pub must_enqueue : List ℕ → RingBuffer → ℕ × RingBuffer
must_enqueue src r = (
  length src,
  move_rear (length src) (record r { memory = write_bytes r.memory r.write_pos src }),
)

-- The bytes are what the call copies to `dst`.
pub must_dequeue : ℕ → RingBuffer → ℕ × List ℕ × RingBuffer
must_dequeue size r = (size, read_bytes r.memory r.read_pos size, move_front size r)

pub must_peek : ℕ → ℕ → RingBuffer → ℕ × List ℕ
must_peek src size r = (size, read_bytes r.memory src size)

-- `size` is cut down to the free space.
abbrev pub clamp : ℕ → ℕ → ℕ
clamp available size = if ltb available size then available else size

enqueue_clamped : ℕ → List ℕ → RingBuffer → ℕ × RingBuffer
enqueue_clamped size src r =
    let direct_size = direct_enqueue_size r in
    if leb size direct_size
    then must_enqueue (take size src) r
    else (let (_, r') = must_enqueue (take direct_size src) r in
        let (n, r'') = must_enqueue (take (size - direct_size) (drop direct_size src)) r' in
        (direct_size + n, r''))

pub enqueue : List ℕ → RingBuffer → ℕ × RingBuffer
enqueue src r = enqueue_clamped (clamp (get_free_size r) (length src)) src r

dequeue_clamped : ℕ → RingBuffer → ℕ × List ℕ × RingBuffer
dequeue_clamped size r =
    let direct_size = direct_dequeue_size r in
    if leb size direct_size
    then must_dequeue size r
    else (let (_, first, r') = must_dequeue direct_size r in
        let (n, second, r'') = must_dequeue (size - direct_size) r' in
        (direct_size + n, first ++ second, r''))

pub dequeue : ℕ → RingBuffer → ℕ × List ℕ × RingBuffer
dequeue size r = dequeue_clamped (clamp (get_use_size r) size) r

peek_clamped : ℕ → RingBuffer → ℕ × List ℕ
peek_clamped size r =
    let direct_size = direct_dequeue_size r in
    if leb size direct_size
    then must_peek r.read_pos size r
    else (let (_, first) = must_peek r.read_pos direct_size r in
        let (n, second) = must_peek r.begin (size - direct_size) r in
        (direct_size + n, first ++ second))

pub peek : ℕ → RingBuffer → ℕ × List ℕ
peek size r = peek_clamped (clamp (get_use_size r) size) r
