-- ===== src/RingBuffer/Tests.antt =====
-- The ring at concrete inputs: one that is empty, and one whose bytes go round the end.
use jun_core_v.Common.{◌%◌, ◌≡◌, refl, List, [], ◌∷◌, arith}
use jun_core_v.Common.Memory.{Memory, read_bytes, write_bytes}
use jun_core_v.RingBuffer.{
  RingBuffer, ring_buffer, move_rear, direct_enqueue_size, get_free_size, get_use_size, enqueue,
  enqueue_clamped, must_enqueue, dequeue, dequeue_clamped, must_dequeue, move_front, peek,
  peek_clamped, must_peek, clear,
}
use jun_core_v.RingBuffer.Circle.{circle}
use jun_core_v.RingBuffer.Inv.{IsValid}
use jun_core_v.RingBuffer.Enqueue.{contents}
use jun_core_v.RingBuffer.Refine.{Op, put, get, look, reset, run, queue_run, step, run_refines}

-- Byte `a % 100` at address `a`.
abbrev pattern_memory : Memory
pattern_memory a = a % 100

-- 8192 bytes from address 16384 on; three bytes are held, the last two of the block and the first.
abbrev wrapped : RingBuffer
wrapped = record {
  memory = pattern_memory;
  begin = 16384;
  end = 24576;
  front = 24573;
  rear = 16384;
  read_pos = 24574;
  write_pos = 16385;
}

wrapped-IsValid : IsValid wrapped
wrapped-IsValid = omega arith

contents-wrapped : contents wrapped ≡ 74 ∷ 75 ∷ 84 ∷ []
unfolding circle get_use_size
contents-wrapped = refl

fresh_holds_nothing :
    (get_use_size (ring_buffer pattern_memory 16384) ≡ 0) × (get_free_size wrapped ≡ 8188)
unfolding ring_buffer get_use_size get_free_size
fresh_holds_nothing = (refl, refl)

script : List Op
script = get 2 ∷ put (1 ∷ 2 ∷ []) ∷ look 9 ∷ get 2 ∷ reset ∷ get 1 ∷ []

run-script :
    run wrapped script
    ≡ (2, 74 ∷ 75 ∷ []) ∷ (2, []) ∷ (3, 84 ∷ 1 ∷ 2 ∷ []) ∷ (2, 84 ∷ 1 ∷ []) ∷ (0, []) ∷ (0, []) ∷ []
unfolding script run step enqueue enqueue_clamped must_enqueue move_rear dequeue dequeue_clamped
    must_dequeue move_front peek peek_clamped must_peek clear get_use_size get_free_size
    direct_enqueue_size read_bytes write_bytes
run-script = refl

run_refines_example : run wrapped script ≡ queue_run (contents wrapped) script
run_refines_example = run_refines script wrapped-IsValid
