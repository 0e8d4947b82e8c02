-- ===== src/RingBuffer/Dequeue.antt =====
-- `MustDequeue`, `Dequeue` and `Peek`: which bytes come out, and what is left.
use jun_core_v.Common.{
  ℕ, ◌+◌, ◌-◌, ◌%◌, ◌≤◌, ◌<◌, min, ◌≡◌, refl, sym, ap, ap₂, ◌∙◌, List, ◌++◌, append_assoc, length,
  take, drop, length-append, take-append, drop-append, leb, leb→le, leb→lt, inl, inr, Bool-cases,
  arith,
}
use jun_core_v.Common.Memory.{read_bytes, length-read_bytes}
use jun_core_v.RingBuffer.{
  RingBuffer, move_front, direct_dequeue_size, remain_dequeue_size, get_use_size, must_dequeue,
  must_peek, clamp, dequeue_clamped, dequeue, peek_clamped, peek,
}
use jun_core_v.RingBuffer.Circle.{circle, circle_mod, circle-add, circle-read_bytes, length-circle}
use jun_core_v.RingBuffer.Inv.{IsValid, direct_dequeue_size_in_bounds}
use jun_core_v.RingBuffer.Enqueue.{contents}

-- What taking `out` from `r` leads to.
pub record Taken (r : RingBuffer) (out : List ℕ) (r' : RingBuffer) : Type 0 where
  pub valid : IsValid r'
  pub same_begin : r'.begin ≡ r.begin
  pub same_write_pos : r'.write_pos ≡ r.write_pos
  pub same_memory : r'.memory ≡ r.memory
  pub shrunk : get_use_size r ≡ length out + get_use_size r'
  pub split : contents r ≡ out ++ contents r'

must_dequeue-use_size :
    {r : RingBuffer} (n : ℕ)
    → IsValid r
    → n ≤ direct_dequeue_size r
    → get_use_size r ≡ n + get_use_size (must_dequeue n r).2
unfolding must_dequeue move_front get_use_size direct_dequeue_size
must_dequeue-use_size n v h = ground arith

count : (n : ℕ) (r : RingBuffer) → (must_dequeue n r).0 ≡ n
unfolding must_dequeue
count n r = refl

length-must_dequeue : (n : ℕ) (r : RingBuffer) → length (must_dequeue n r).1 ≡ n
unfolding must_dequeue
length-must_dequeue n r = length-read_bytes r.memory r.read_pos n

must_dequeue-IsValid : {r : RingBuffer} (n : ℕ) → IsValid r → IsValid (must_dequeue n r).2
unfolding must_dequeue move_front
must_dequeue-IsValid n v = omega arith

-- The read position moves on by `n`, going round.
must_dequeue-read_pos :
    {r : RingBuffer} (n : ℕ)
    → IsValid r
    → ((must_dequeue n r).2.read_pos - r.begin) % 8192 ≡ (r.read_pos - r.begin + n) % 8192
unfolding must_dequeue move_front
must_dequeue-read_pos n v = omega arith

must_dequeue-split :
    {r : RingBuffer} (n : ℕ)
    → IsValid r
    → n ≤ direct_dequeue_size r
    → contents r ≡ (must_dequeue n r).1 ++ contents (must_dequeue n r).2
must_dequeue-split {r} n v h =
    ap (circle r.memory r.begin off) (must_dequeue-use_size n v h)
    ∙ circle-add r.memory r.begin off n left
    ∙ ap₂ ◌++◌ first rest
  where
    off : ℕ
    off = r.read_pos - r.begin

    left : ℕ
    left = get_use_size (must_dequeue n r).2

    first : circle r.memory r.begin off n ≡ (must_dequeue n r).1
    first =
        unfold must_dequeue in
        (circle-read_bytes r.memory r.begin off n (omega (arith, direct_dequeue_size_in_bounds v))
          ∙ ap (λ a. read_bytes r.memory a n) (omega arith))

    rest : circle r.memory r.begin (off + n) left ≡ contents (must_dequeue n r).2
    rest =
        unfold must_dequeue move_front in
        (circle_mod r.memory r.begin (off + n) ((must_dequeue n r).2.read_pos - r.begin) left
          (sym (must_dequeue-read_pos n v)))

pub must_dequeue-Taken :
    {r : RingBuffer} (n : ℕ)
    → IsValid r
    → n ≤ direct_dequeue_size r
    → Taken r (must_dequeue n r).1 (must_dequeue n r).2
must_dequeue-Taken {r} n v h = record {
  valid = must_dequeue-IsValid n v;
  same_begin = unfold must_dequeue move_front in refl;
  same_write_pos = unfold must_dequeue move_front in refl;
  same_memory = unfold must_dequeue move_front in refl;
  shrunk = omega (arith, must_dequeue-use_size n v h, length-must_dequeue n r);
  split = must_dequeue-split n v h;
}

Taken-trans :
    {r r' r'' : RingBuffer} (xs ys : List ℕ)
    → Taken r xs r'
    → Taken r' ys r''
    → Taken r (xs ++ ys) r''
Taken-trans {r} {r'} {r''} xs ys s t = record {
  valid = t.valid;
  same_begin = t.same_begin ∙ s.same_begin;
  same_write_pos = t.same_write_pos ∙ s.same_write_pos;
  same_memory = t.same_memory ∙ s.same_memory;
  shrunk = omega (arith, t.shrunk, s.shrunk, length-append xs ys);
  split = s.split ∙ ap (◌++◌ xs) t.split ∙ sym (append_assoc xs ys (contents r''));
}

-- Once the stretch up to the end is read, reading goes on at `begin`.
second_stretch :
    {r : RingBuffer}
    → IsValid r
    → direct_dequeue_size r < get_use_size r
    → let r' = (must_dequeue (direct_dequeue_size r) r).2 in
      (direct_dequeue_size r' ≡ remain_dequeue_size r) × (r'.read_pos ≡ r.begin)
unfolding must_dequeue move_front direct_dequeue_size remain_dequeue_size get_use_size
second_stretch v h = ground arith

use_size-split : (r : RingBuffer) → get_use_size r ≡ direct_dequeue_size r + remain_dequeue_size r
unfolding get_use_size
use_size-split r = refl

-- A request for no more than is held.
dequeue_clamped-Taken :
    {r : RingBuffer} (size : ℕ)
    → IsValid r
    → size ≤ get_use_size r
    → let (n, out, r') = dequeue_clamped size r in
      (n ≡ size) × (length out ≡ size) × Taken r out r' × (peek_clamped size r ≡ (n, out))
unfolding dequeue_clamped peek_clamped
dequeue_clamped-Taken {r} size v room = elim (Bool-cases (leb size d)) [
  | inl fits ↦
      let k : size ≤ d = leb→le size d fits in
      rw fits (
        unfold must_dequeue in refl,
        length-must_dequeue size r,
        must_dequeue-Taken size v k,
        unfold must_dequeue must_peek in refl,
      )
  | inr more ↦
      let k : d < size = leb→lt size d more in
      let first : Taken r (must_dequeue d r).1 r' = must_dequeue-Taken d v (omega arith) in
      let second : Taken r' (must_dequeue (size - d) r').1 (must_dequeue (size - d) r').2 =
        must_dequeue-Taken (size - d) first.valid
          (omega (arith, second_stretch v (omega arith), use_size-split r)) in
      let gap : direct_dequeue_size r < get_use_size r = omega arith in
      rw more (
        omega (arith, count (size - d) r'),
        omega (
          arith,
          length-append (must_dequeue d r).1 (must_dequeue (size - d) r').1,
          length-must_dequeue d r,
          length-must_dequeue (size - d) r',
        ),
        Taken-trans (must_dequeue d r).1 (must_dequeue (size - d) r').1 first second,
        unfold must_dequeue must_peek move_front in
            ap
              (λ a. (
                d + (size - d),
                read_bytes r.memory r.read_pos d ++ read_bytes r.memory a (size - d),
              ))
              (sym (second_stretch v gap).1),
      )
]
  where
    d : ℕ
    d = direct_dequeue_size r

    r' : RingBuffer
    r' = (must_dequeue d r).2

pub length-contents : (r : RingBuffer) → length (contents r) ≡ get_use_size r
length-contents r = length-circle r.memory r.begin (r.read_pos - r.begin) (get_use_size r)

-- `Dequeue` returns as many bytes as asked for and held, the oldest first, and leaves the others.
pub dequeue_lem :
    {r : RingBuffer} (size : ℕ)
    → IsValid r
    → let (n, out, r') = dequeue size r in
      (n ≡ min size (get_use_size r))
      × (out ≡ take n (contents r))
      × (contents r' ≡ drop n (contents r))
      × Taken r out r'
unfolding dequeue
dequeue_lem {r} size v =
    let (n, len, taken, _) = done in
    (
      n ∙ ground arith,
      rw n (sym (rw taken.split (take-append k out (contents r') (sym len)))),
      rw n (sym (rw taken.split (drop-append k out (contents r') (sym len)))),
      taken,
    )
  where
    k : ℕ
    k = clamp (get_use_size r) size

    out : List ℕ
    out = (dequeue_clamped k r).1

    r' : RingBuffer
    r' = (dequeue_clamped k r).2

    done :
        ((dequeue_clamped k r).0 ≡ k)
        × (length out ≡ k)
        × Taken r out r'
        × (peek_clamped k r ≡ ((dequeue_clamped k r).0, out))
    done = dequeue_clamped-Taken k v (ground arith)

-- `Peek` returns what `Dequeue` would, and takes nothing out.
pub peek-dequeue :
    {r : RingBuffer} (size : ℕ) → IsValid r → peek size r ≡ ((dequeue size r).0, (dequeue size r).1)
unfolding dequeue peek
peek-dequeue {r} size v = (dequeue_clamped-Taken (clamp (get_use_size r) size) v (ground arith)).3
