-- ===== src/RingBuffer/Refine.antt =====
-- The ring against a bounded first-in first-out queue of bytes.
use jun_core_v.Common.{
  ℕ, ◌-◌, min, ◌≡◌, refl, sym, ap, ap₂, ◌∙◌, List, [], ◌∷◌, ◌++◌, length, take, drop, arith,
}
use jun_core_v.RingBuffer.{RingBuffer, clear, get_use_size, get_free_size, enqueue, dequeue, peek}
use jun_core_v.RingBuffer.Circle.{circle}
use jun_core_v.RingBuffer.Inv.{IsValid, clear-IsValid, use_size-eq, use_size-add-free_size}
use jun_core_v.RingBuffer.Enqueue.{contents, enqueue_lem}
use jun_core_v.RingBuffer.Dequeue.{length-contents, dequeue_lem, peek-dequeue}

-- What a client can ask of a ring.
pub data Op : Type 0 where
  put : List ℕ → Op
  get : ℕ → Op
  look : ℕ → Op
  reset : Op

-- The number that a call returns, and the bytes that it copies out.
abbrev pub Reply : Type 0
Reply = ℕ × List ℕ

unfoldable pub step : RingBuffer → Op → Reply × RingBuffer
step r (put src) = let (n, r') = enqueue src r in ((n, []), r')
step r (get size) = let (n, out, r') = dequeue size r in ((n, out), r')
step r (look size) = (peek size r, r)
step r reset = ((0, []), clear r)

unfoldable pub run : RingBuffer → List Op → List Reply
run r [] = []
run r (op ∷ ops) = let (reply, r') = step r op in reply ∷ run r' ops

-- A queue of at most 8191 bytes, oldest first.
unfoldable pub queue_step : List ℕ → Op → Reply × List ℕ
queue_step q (put src) =
    let free = 8191 - length q in ((min (length src) free, []), q ++ take free src)
queue_step q (get size) = let n = min size (length q) in ((n, take n q), drop n q)
queue_step q (look size) = let n = min size (length q) in ((n, take n q), q)
queue_step q reset = ((0, []), [])

unfoldable pub queue_run : List ℕ → List Op → List Reply
queue_run q [] = []
queue_run q (op ∷ ops) = let (reply, q') = queue_step q op in reply ∷ queue_run q' ops

pub step-IsValid : {r : RingBuffer} (op : Op) → IsValid r → IsValid (step r op).1
unfolding step
step-IsValid (put src) v = (enqueue_lem src v).1.valid
step-IsValid (get size) v = (dequeue_lem size v).3.valid
step-IsValid (look size) v = v
step-IsValid reset v = clear-IsValid v

free-eq : {r : RingBuffer} → IsValid r → get_free_size r ≡ 8191 - length (contents r)
free-eq {r} v = omega (arith, length-contents r, use_size-add-free_size v)

contents-clear : {r : RingBuffer} → IsValid r → contents (clear r) ≡ []
unfolding circle
contents-clear {r} v =
    ap (circle (clear r).memory (clear r).begin ((clear r).read_pos - (clear r).begin)) nothing
  where
    nothing : get_use_size (clear r) ≡ 0
    nothing = unfold clear in omega (arith, use_size-eq (clear-IsValid v))

abbrev Matches : RingBuffer → Op → Type 0
Matches r op =
    ((step r op).0 ≡ (queue_step (contents r) op).0)
    × (contents (step r op).1 ≡ (queue_step (contents r) op).1)

got :
    {r : RingBuffer} (size : ℕ)
    → IsValid r
    → ◌≡◌ {A = Reply}
        ((dequeue size r).0, (dequeue size r).1)
        (queue_step (contents r) (get size)).0
unfolding queue_step
got {r} size v =
    let (n, out, _, _) = dequeue_lem size v in
    let n' = n ∙ ap (min size) (sym (length-contents r)) in
    ap₂ (λ a b. (a, b)) n' (out ∙ ap (λ k. take k (contents r)) n')

dequeue_rest :
    {r : RingBuffer} (size : ℕ)
    → IsValid r
    → contents (dequeue size r).2 ≡ (queue_step (contents r) (get size)).1
unfolding queue_step
dequeue_rest {r} size v =
    let (n, _, left, _) = dequeue_lem size v in
    left ∙ ap (λ k. drop k (contents r)) (n ∙ ap (min size) (sym (length-contents r)))

-- Every call answers as the queue of the bytes held does, and leaves the ring holding that queue.
pub step_refines : {r : RingBuffer} (op : Op) → IsValid r → Matches r op
unfolding step queue_step
step_refines {r} (put src) v =
    let (n, stored) = enqueue_lem src v in
    (
      ap (λ k. (k, [])) (n ∙ ap (min (length src)) (free-eq v)),
      stored.appended ∙ ap (λ k. contents r ++ take k src) (free-eq v),
    )
step_refines {r} (get size) v = (got size v, dequeue_rest size v)
step_refines {r} (look size) v = (peek-dequeue size v ∙ got size v, refl)
step_refines {r} reset v = (refl, contents-clear v)

-- No sequence of calls tells a valid ring from the bounded queue of its bytes.
pub run_refines :
    (ops : List Op) {r : RingBuffer} → IsValid r → run r ops ≡ queue_run (contents r) ops
unfolding run queue_run
run_refines [] v = refl
run_refines (op ∷ ops) {r} v =
    let (reply, left) = step_refines op v in
    ap₂ ◌∷◌ reply (run_refines ops (step-IsValid op v) ∙ ap (λ q. queue_run q ops) left)
