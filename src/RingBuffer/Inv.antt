-- ===== src/RingBuffer/Inv.antt =====
-- The representation invariant of the ring, and the sizes that it gives.
use jun_core_v.Common.{ℕ, ◌+◌, ◌-◌, ◌%◌, ◌≤◌, ◌<◌, ◌≡◌, ◌↔◌, true, arith}
use jun_core_v.Common.Memory.{Memory}
use jun_core_v.RingBuffer.{
  RingBuffer, ring_buffer, move_front, move_rear, is_empty, is_full, clear, direct_enqueue_size,
  direct_dequeue_size, get_free_size, get_use_size,
}

-- `_aligned_malloc(BUF_SIZE, BUF_SIZE)` gives an address that is a multiple of 8192.
pub record IsValid (r : RingBuffer) : Type 0 where
  pub aligned : r.begin % 8192 ≡ 0
  pub ended : r.end ≡ r.begin + 8192
  pub front_ge : r.begin ≤ r.front
  pub front_lt : r.front < r.begin + 8192
  pub rear_ge : r.begin ≤ r.rear
  pub rear_lt : r.rear < r.begin + 8192
  pub reading : r.read_pos ≡ r.begin + (r.front - r.begin + 1) % 8192
  pub writing : r.write_pos ≡ r.begin + (r.rear - r.begin + 1) % 8192

pub ring_buffer-IsValid : (m : Memory) (a : ℕ) → a % 8192 ≡ 0 → IsValid (ring_buffer m a)
unfolding ring_buffer
ring_buffer-IsValid m a h = omega arith

pub clear-IsValid : {r : RingBuffer} → IsValid r → IsValid (clear r)
unfolding clear
clear-IsValid v = omega arith

pub move_front-IsValid : {r : RingBuffer} (n : ℕ) → IsValid r → IsValid (move_front n r)
unfolding move_front
move_front-IsValid n v = omega arith

pub move_rear-IsValid : {r : RingBuffer} (n : ℕ) → IsValid r → IsValid (move_rear n r)
unfolding move_rear
move_rear-IsValid n v = omega arith

-- The distance from front to rear, going round.
pub use_size-eq : {r : RingBuffer} → IsValid r → get_use_size r ≡ (r.rear + 8192 - r.front) % 8192
unfolding get_use_size
use_size-eq v = ground arith

-- Used and free bytes make up the capacity of 8191 bytes.
pub use_size-add-free_size : {r : RingBuffer} → IsValid r → get_use_size r + get_free_size r ≡ 8191
unfolding get_use_size get_free_size
use_size-add-free_size v = ground arith

pub is_empty_iff : {r : RingBuffer} → IsValid r → (is_empty r ≡ true) ↔ (get_use_size r ≡ 0)
unfolding is_empty
is_empty_iff v = ground (arith, use_size-eq v)

pub is_full_iff : {r : RingBuffer} → IsValid r → (is_full r ≡ true) ↔ (get_free_size r ≡ 0)
unfolding is_full
is_full_iff v = ground (arith, use_size-eq v, use_size-add-free_size v)

pub direct_enqueue_size_in_bounds :
    {r : RingBuffer} → IsValid r → r.write_pos + direct_enqueue_size r ≤ r.end
unfolding direct_enqueue_size
direct_enqueue_size_in_bounds v = ground arith

pub direct_dequeue_size_in_bounds :
    {r : RingBuffer} → IsValid r → r.read_pos + direct_dequeue_size r ≤ r.end
unfolding direct_dequeue_size
direct_dequeue_size_in_bounds v = ground arith
