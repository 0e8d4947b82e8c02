-- ===== src/RingBuffer/Enqueue.antt =====
-- `MustEnqueue` and `Enqueue`: how many bytes are taken, where they go, and what they leave alone.
use jun_core_v.Common.{
  ℕ, ◌+◌, ◌-◌, ◌%◌, ◌≤◌, ◌<◌, min, ◌≡◌, refl, subst, ap, ◌∙◌, ◌⊎◌, inl, inr, List, ◌++◌,
  append_assoc, length, take, drop, leb, leb→le, leb→lt, Bool-cases, length-append, length-take,
  length-drop, take_of_le, take-add, arith,
}
use jun_core_v.Common.Memory.{write_bytes, write_bytes_outside}
use jun_core_v.RingBuffer.{
  RingBuffer, move_rear, direct_enqueue_size, remain_enqueue_size, get_free_size, get_use_size,
  must_enqueue, clamp, enqueue_clamped, enqueue,
}
use jun_core_v.RingBuffer.Circle.{circle, circle-write_bytes}
use jun_core_v.RingBuffer.Inv.{
  IsValid, use_size-eq, use_size-add-free_size, direct_enqueue_size_in_bounds,
}

-- The bytes that the ring holds, oldest first.
abbrev pub contents : RingBuffer → List ℕ
contents r = circle r.memory r.begin (r.read_pos - r.begin) (get_use_size r)

-- What storing `src` in `r` leads to.
pub record Stored (r : RingBuffer) (src : List ℕ) (r' : RingBuffer) : Type 0 where
  pub valid : IsValid r'
  pub same_begin : r'.begin ≡ r.begin
  pub same_read_pos : r'.read_pos ≡ r.read_pos
  pub grown : get_use_size r' ≡ get_use_size r + length src
  pub appended : contents r' ≡ contents r ++ src
  pub outside : (a : ℕ) → (a < r.begin) ⊎ (r.end ≤ a) → r'.memory a ≡ r.memory a

must_enqueue-use_size :
    {r : RingBuffer} (src : List ℕ)
    → IsValid r
    → length src ≤ direct_enqueue_size r
    → get_use_size (must_enqueue src r).1 ≡ get_use_size r + length src
unfolding must_enqueue move_rear get_use_size direct_enqueue_size
must_enqueue-use_size src v h = ground arith

must_enqueue-IsValid : {r : RingBuffer} (src : List ℕ) → IsValid r → IsValid (must_enqueue src r).1
unfolding must_enqueue move_rear
must_enqueue-IsValid src v = omega arith

write_pos-eq :
    {r : RingBuffer}
    → IsValid r
    → r.write_pos ≡ r.begin + (r.read_pos - r.begin + get_use_size r) % 8192
write_pos-eq v = omega (arith, use_size-eq v)

direct-le-free : (r : RingBuffer) → direct_enqueue_size r ≤ get_free_size r
unfolding get_free_size
direct-le-free r = omega arith

pub free_size-split :
    (r : RingBuffer) → get_free_size r ≡ direct_enqueue_size r + remain_enqueue_size r
unfolding get_free_size
free_size-split r = refl

must_enqueue-contents :
    {r : RingBuffer} (src : List ℕ)
    → IsValid r
    → length src ≤ direct_enqueue_size r
    → contents (must_enqueue src r).1 ≡ contents r ++ src
unfolding must_enqueue move_rear
must_enqueue-contents {r} src v h =
    ap (circle (write_bytes r.memory r.write_pos src) r.begin off) (must_enqueue-use_size src v h)
    ∙ subst
        (λ a.
          circle (write_bytes r.memory a src) r.begin off (use_size + length src)
          ≡ contents r ++ src)
        (omega arith)
        (circle-write_bytes r.memory r.begin off use_size (r.write_pos - r.begin) src
          (omega (arith, write_pos-eq v)) (omega (arith, direct_enqueue_size_in_bounds v))
          (omega (arith, direct-le-free r, use_size-add-free_size v)))
  where
    off : ℕ
    off = r.read_pos - r.begin

    use_size : ℕ
    use_size = get_use_size r

pub must_enqueue-Stored :
    {r : RingBuffer} (src : List ℕ)
    → IsValid r
    → length src ≤ direct_enqueue_size r
    → Stored r src (must_enqueue src r).1
unfolding must_enqueue move_rear
must_enqueue-Stored {r} src v h = record {
  valid = unfold must_enqueue move_rear in must_enqueue-IsValid src v;
  same_begin = refl;
  same_read_pos = refl;
  grown = must_enqueue-use_size src v h;
  appended = must_enqueue-contents src v h;
  outside = λ a out.
      write_bytes_outside r.memory r.write_pos src a
        (omega (arith, direct_enqueue_size_in_bounds v));
}

-- The free space in front of `front` becomes one stretch once the first is filled.
second_stretch :
    {r : RingBuffer} (src : List ℕ)
    → IsValid r
    → length src ≡ direct_enqueue_size r
    → direct_enqueue_size (must_enqueue src r).1 ≡ remain_enqueue_size r
unfolding must_enqueue move_rear direct_enqueue_size remain_enqueue_size
second_stretch src v h = ground arith

Stored-trans :
    {r r' r'' : RingBuffer} (xs ys : List ℕ)
    → Stored r xs r'
    → Stored r' ys r''
    → IsValid r
    → Stored r (xs ++ ys) r''
Stored-trans {r} {r'} {r''} xs ys s t v = record {
  valid = t.valid;
  same_begin = t.same_begin ∙ s.same_begin;
  same_read_pos = t.same_read_pos ∙ s.same_read_pos;
  grown = omega (arith, t.grown, s.grown, length-append xs ys);
  appended = t.appended ∙ ap (λ c. c ++ ys) s.appended ∙ append_assoc (contents r) xs ys;
  outside =
      λ a out. t.outside a (omega (arith, s.same_begin, s.valid.ended, v.ended)) ∙ s.outside a out;
}

pub two_parts :
    {r : RingBuffer} (size : ℕ) (src : List ℕ)
    → IsValid r
    → size ≤ length src
    → direct_enqueue_size r < size
    → size ≤ get_free_size r
    → let d = direct_enqueue_size r in
      Stored r
        (take size src)
        (must_enqueue (take (size - d) (drop d src)) (must_enqueue (take d src) r).1).1
two_parts {r} size src v k lt room =
    subst (λ xs. Stored r xs (must_enqueue rest (must_enqueue (take d src) r).1).1) joined
      (Stored-trans (take d src) rest first second v)
  where
    d : ℕ
    d = direct_enqueue_size r

    rest : List ℕ
    rest = take (size - d) (drop d src)

    joined : take d src ++ rest ≡ take size src
    joined = take-add d (size - d) src ∙ ap (λ n. take n src) (omega arith)

    full : length (take d src) ≡ d
    full = omega (arith, length-take d src)

    first : Stored r (take d src) (must_enqueue (take d src) r).1
    first = must_enqueue-Stored (take d src) v (omega (arith, full))

    second :
        Stored
          (must_enqueue (take d src) r).1
          rest
          (must_enqueue rest (must_enqueue (take d src) r).1).1
    second = must_enqueue-Stored rest first.valid (
        omega (
          arith,
          length-take (size - d) (drop d src),
          second_stretch (take d src) v full,
          free_size-split r,
        ))

enqueue_clamped-Stored :
    {r : RingBuffer} (size : ℕ) (src : List ℕ)
    → IsValid r
    → size ≤ length src
    → size ≤ get_free_size r
    → let (n, r') = enqueue_clamped size src r in (n ≡ size) × Stored r (take size src) r'
unfolding enqueue_clamped
enqueue_clamped-Stored {r} size src v k room = elim (Bool-cases (leb size d)) [
  | inl fits ↦ rw fits (
    omega (arith, count (take size src) r, length-take size src),
    must_enqueue-Stored (take size src) v (omega (arith, length-take size src, leb→le size d fits)),
  )
  | inr not_fits ↦ rw not_fits (
    omega (
      arith,
      count rest (must_enqueue (take d src) r).1,
      length-take (size - d) (drop d src),
      length-drop d src,
      leb→lt size d not_fits,
    ),
    two_parts size src v k (leb→lt size d not_fits) room,
  )
]
  where
    d : ℕ
    d = direct_enqueue_size r

    rest : List ℕ
    rest = take (size - d) (drop d src)

    count : (xs : List ℕ) (q : RingBuffer) → (must_enqueue xs q).0 ≡ length xs
    count xs q = unfold must_enqueue in refl

-- `Enqueue` takes as many bytes as are free, returns their number, stores exactly those behind
-- the bytes held, and writes nowhere outside the buffer.
pub enqueue_lem :
    {r : RingBuffer} (src : List ℕ)
    → IsValid r
    → let (n, r') = enqueue src r in
      (n ≡ min (length src) (get_free_size r)) × Stored r (take (get_free_size r) src) r'
unfolding enqueue
enqueue_lem {r} src v =
    (done.0 ∙ ground arith, subst (λ xs. Stored r xs (enqueue_clamped size src r).1) same done.1)
  where
    size : ℕ
    size = clamp (get_free_size r) (length src)

    done : let (n, r') = enqueue_clamped size src r in (n ≡ size) × Stored r (take size src) r'
    done = enqueue_clamped-Stored size src v (ground arith) (ground arith)

    same : take size src ≡ take (get_free_size r) src
    same = ground (arith, take_of_le (length src) src, take_of_le (get_free_size r) src)
