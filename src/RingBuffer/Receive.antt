-- ===== src/RingBuffer/Receive.antt =====
-- Bytes that arrive in the free stretches from outside, and the `MoveRear` that makes them count.
use jun_core_v.Common.{
  ℕ, ◌+◌, ◌-◌, ◌≤◌, ◌<◌, ◌≡◌, sym, subst, ap, ap₂, inl, inr, List, leb, leb→le, leb→lt, Bool-cases,
  length, take, drop, length-take, length-drop, take_of_le, drop_of_le, arith,
}
use jun_core_v.Common.Memory.{Memory, write_bytes}
use jun_core_v.RingBuffer.{RingBuffer, move_rear, direct_enqueue_size, get_free_size, must_enqueue}
use jun_core_v.RingBuffer.Inv.{IsValid}
use jun_core_v.RingBuffer.Enqueue.{Stored, must_enqueue-Stored, two_parts}

-- Memory after `bytes` were put in the stretch at `write_pos`, and, when that is full, at `begin`.
abbrev pub scatter : RingBuffer → List ℕ → Memory
scatter r bytes =
    let d = direct_enqueue_size r in
    write_bytes (write_bytes r.memory r.write_pos (take d bytes)) r.begin (drop d bytes)

-- If there is free space behind the first stretch, that stretch ends at the end of the buffer.
stretch_to_end :
    {r : RingBuffer}
    → IsValid r
    → direct_enqueue_size r < get_free_size r
    → r.write_pos + direct_enqueue_size r ≡ r.end
unfolding direct_enqueue_size get_free_size
stretch_to_end v h = ground arith

after_first_part :
    {r : RingBuffer} (bytes : List ℕ)
    → IsValid r
    → direct_enqueue_size r < length bytes
    → length bytes ≤ get_free_size r
    → let d = direct_enqueue_size r in
      (must_enqueue (take (length bytes - d) (drop d bytes)) (must_enqueue (take d bytes) r).1).1
      ≡ move_rear (length bytes) (record r { memory = scatter r bytes })
unfolding must_enqueue move_rear
after_first_part {r} bytes v more room = λ i. record {
  memory = memory i;
  begin = r.begin;
  end = r.end;
  front = r.front;
  rear = rear i;
  read_pos = r.read_pos;
  write_pos = write_pos i;
}
  where
    d : ℕ
    d = direct_enqueue_size r

    rest : List ℕ
    rest = take (length bytes - d) (drop d bytes)

    q : RingBuffer
    q = (must_enqueue (take d bytes) r).1

    whole : rest ≡ drop d bytes
    whole = take_of_le (length bytes - d) (drop d bytes) (omega (arith, length-drop d bytes))

    memory : (must_enqueue rest q).1.memory ≡ scatter r bytes
    memory =
        ap₂ (write_bytes (write_bytes r.memory r.write_pos (take d bytes)))
          (omega (arith, length-take d bytes, stretch_to_end v (omega arith))) whole

    rear :
        (must_enqueue rest q).1.rear
        ≡ (move_rear (length bytes) (record r { memory = scatter r bytes })).rear
    rear = omega (arith, length-take d bytes, length-drop d bytes, ap length whole)

    write_pos :
        (must_enqueue rest q).1.write_pos
        ≡ (move_rear (length bytes) (record r { memory = scatter r bytes })).write_pos
    write_pos = omega (arith, length-take d bytes, length-drop d bytes, ap length whole)

-- Bytes put in the two free stretches from outside, with room for them, are stored by `MoveRear` as
-- `Enqueue` would have stored them.
pub scatter-Stored :
    {r : RingBuffer} (bytes : List ℕ)
    → IsValid r
    → length bytes ≤ get_free_size r
    → Stored r bytes (move_rear (length bytes) (record r { memory = scatter r bytes }))
scatter-Stored {r} bytes v room = elim (Bool-cases (leb (length bytes) (direct_enqueue_size r))) [
  | inl fits ↦
      subst (λ m. Stored r bytes (move_rear (length bytes) (record r { memory = m })))
        (sym (
          ap₂ (λ xs ys. write_bytes (write_bytes r.memory r.write_pos xs) r.begin ys)
            (take_of_le (direct_enqueue_size r) bytes (leb→le _ _ fits))
            (drop_of_le (direct_enqueue_size r) bytes (leb→le _ _ fits))))
        (unfold must_enqueue write_bytes in must_enqueue-Stored bytes v (leb→le _ _ fits))
  | inr more ↦
      subst (λ xs. Stored r xs (move_rear (length bytes) (record r { memory = scatter r bytes })))
        (take_of_le (length bytes) bytes (omega arith))
        (subst (Stored r (take (length bytes) bytes))
          (after_first_part bytes v (leb→lt (length bytes) (direct_enqueue_size r) more) room)
          (two_parts (length bytes) bytes v (omega arith)
            (leb→lt (length bytes) (direct_enqueue_size r) more) room))
]
