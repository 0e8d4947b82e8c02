-- ===== src/ProtocolBuffer/Roundtrip.antt =====
-- Objects written with `<<` of ProtocolBuffer.cpp and read back with `>>`.
use jun_core_v.Common.{
  ℕ, ◌^◌, ◌≤◌, ◌<◌, ◌≡◌, refl, sym, ap, ◌∙◌, List, [], ◌∷◌, ◌++◌, append_assoc, Option, none, some,
  length, length-eq-zero, take, drop, append-nil, take-append, drop-append, length-append, map,
  arith,
}
use jun_core_v.Common.LittleEndian.{le_bytes, le_value, length-le_bytes, le_value-le_bytes}
use jun_core_v.ProtocolBuffer.{
  ProtocolBuffer, Scalar, size_of, get_free_size, get_use_size, put, get, get_data,
}
use jun_core_v.ProtocolBuffer.Stream.{
  IsValid, contents, length-contents, Written, put_data_fits, get_data_fits,
}

abbrev pub Object : Type 0
Object = Scalar × ℕ

-- `buf << x << y << …`
unfoldable pub put_all : List Object → ProtocolBuffer → Option ProtocolBuffer
put_all [] b = some b
put_all ((t, n) ∷ xs) b = elim (put t n b) [ none ↦ none | some b' ↦ put_all xs b' ]

-- `buf >> x >> y >> …`
unfoldable pub get_all : List Scalar → ProtocolBuffer → Option (List ℕ × ProtocolBuffer)
get_all [] b = some ([], b)
get_all (t ∷ ts) b = elim (get t b) [
  | none ↦ none
  | some (n, b') ↦ elim (get_all ts b') [ none ↦ none | some (ns, b'') ↦ some (n ∷ ns, b'') ]
]

unfoldable pub object_bytes : List Object → List ℕ
object_bytes [] = []
object_bytes ((t, n) ∷ xs) = le_bytes (size_of t) n ++ object_bytes xs

-- Every object is a value of its type.
abbrev pub InRange : List Object → Type 0
InRange [] = Unit
InRange ((t, n) ∷ xs) = (n < 256 ^ size_of t) × InRange xs

put_all_step :
    (t : Scalar) (n : ℕ) (xs : List Object) (b : ProtocolBuffer) {b' : ProtocolBuffer}
    → put t n b ≡ some b'
    → put_all ((t, n) ∷ xs) b ≡ put_all xs b'
unfolding put_all
put_all_step t n xs b e = ap (λ x. elim x [ none ↦ none | some b' ↦ put_all xs b' ]) e

put_fits :
    (t : Scalar) (n : ℕ) (b : ProtocolBuffer)
    → IsValid b
    → size_of t ≤ get_free_size b
    → (b' : ProtocolBuffer) × (put t n b ≡ some b') × Written b (le_bytes (size_of t) n) b'
unfolding put
put_fits t n b v h =
    put_data_fits b (le_bytes (size_of t) n) v (omega (arith, length-le_bytes (size_of t) n))

-- Objects for which there is room are all written, one after the other.
pub put_all_fits :
    (xs : List Object) (b : ProtocolBuffer)
    → IsValid b
    → length (object_bytes xs) ≤ get_free_size b
    → (b' : ProtocolBuffer) × (put_all xs b ≡ some b')
      × IsValid b'
      × (contents b' ≡ contents b ++ object_bytes xs)
unfolding put_all object_bytes
put_all_fits [] b v h = (b, refl, v, sym (append-nil (contents b)))
put_all_fits ((t, n) ∷ xs) b v h =
    let here = le_bytes (size_of t) n in
    let sizes = length-append here (object_bytes xs) in
    let width = length-le_bytes (size_of t) n in
    let (b', e, w) = put_fits t n b v (omega (arith, sizes, width)) in
    let (b'', e', v', c) = put_all_fits xs b' w.valid (omega (arith, sizes, width, w.room)) in
    (
      b'',
      put_all_step t n xs b e ∙ e',
      v',
      c
          ∙ ap (λ q. q ++ object_bytes xs) w.appended
          ∙ append_assoc (contents b) here (object_bytes xs),
    )

get_if :
    (t : Scalar) (b : ProtocolBuffer) (x : Option (List ℕ × ProtocolBuffer))
    → get_data (size_of t) b ≡ x
    → get t b ≡ elim x [ none ↦ none | some (out, b') ↦ some (le_value out, b') ]
unfolding get
get_if t b x e = ap (λ y. elim y [ none ↦ none | some (out, b') ↦ some (le_value out, b') ]) e

-- The object at the front of the stream is read, and what is behind it is left.
get_front :
    (t : Scalar) (n : ℕ) (rest : List ℕ) (b : ProtocolBuffer)
    → IsValid b
    → n < 256 ^ size_of t
    → contents b ≡ le_bytes (size_of t) n ++ rest
    → (b' : ProtocolBuffer) × (get t b ≡ some (n, b')) × IsValid b' × (contents b' ≡ rest)
get_front t n rest b v range c =
    let here = le_bytes (size_of t) n in
    let width = sym (length-le_bytes (size_of t) n) in
    let (b', e, w) =
      get_data_fits b (size_of t) v
        (omega (arith, width, ap length c, length-append here rest, length-contents b)) in
    let out = ap (take (size_of t)) c ∙ take-append (size_of t) here rest width in
    (
      b',
      get_if t b _ e
          ∙ ap (λ k. some (k, b')) (ap le_value out ∙ le_value-le_bytes (size_of t) n range),
      w.valid,
      w.left ∙ ap (drop (size_of t)) c ∙ drop-append (size_of t) here rest width,
    )

get_all_step :
    (t : Scalar) (ts : List Scalar) (n : ℕ) (ns : List ℕ) (b : ProtocolBuffer)
    {b' b'' : ProtocolBuffer}
    → get t b ≡ some (n, b')
    → get_all ts b' ≡ some (ns, b'')
    → get_all (t ∷ ts) b ≡ some (n ∷ ns, b'')
unfolding get_all
get_all_step t ts n ns b e e' =
    ap
      (λ x. elim x [
        | none ↦ none
        | some (n, b') ↦ elim (get_all ts b') [ none ↦ none | some (ns, b'') ↦ some (n ∷ ns, b'') ]
      ])
      e
    ∙ ap (λ x. elim x [ none ↦ none | some (ns, b'') ↦ some (n ∷ ns, b'') ]) e'

pub get_all_front :
    (xs : List Object) (rest : List ℕ) (b : ProtocolBuffer)
    → IsValid b
    → InRange xs
    → contents b ≡ object_bytes xs ++ rest
    → (b' : ProtocolBuffer) × (get_all (map (λ x. x.0) xs) b ≡ some (map (λ x. x.1) xs, b'))
      × (contents b' ≡ rest)
unfolding get_all object_bytes
get_all_front [] rest b v r c = (b, refl, c)
get_all_front ((t, n) ∷ xs) rest b v (range, r) c =
    let here = le_bytes (size_of t) n in
    let (b', e, v', c') =
      get_front t n (object_bytes xs ++ rest) b v range
        (c ∙ append_assoc here (object_bytes xs) rest) in
    let (b'', e', c'') = get_all_front xs rest b' v' r c' in
    (b'', get_all_step t (map (λ x. x.0) xs) n (map (λ x. x.1) xs) b e e', c'')

-- Objects in the range of their types for which an empty valid buffer has room are all written,
-- and reading the same types in the same order returns them and leaves the buffer empty.
pub get_all-put_all :
    (xs : List Object) (b : ProtocolBuffer)
    → IsValid b
    → get_use_size b ≡ 0
    → InRange xs
    → length (object_bytes xs) ≤ get_free_size b
    → (b' b'' : ProtocolBuffer) × (put_all xs b ≡ some b')
      × (get_all (map (λ x. x.0) xs) b' ≡ some (map (λ x. x.1) xs, b''))
      × (get_use_size b'' ≡ 0)
get_all-put_all xs b v nothing r h =
    let (b', e, v', c) = put_all_fits xs b v h in
    let none_held = length-eq-zero (contents b) (length-contents b ∙ nothing) in
    let (b'', e', c') =
      get_all_front xs [] b' v' r
        (c ∙ ap (λ q. q ++ object_bytes xs) none_held ∙ sym (append-nil (object_bytes xs))) in
    (b', b'', e, e', sym (length-contents b'') ∙ ap length c')
