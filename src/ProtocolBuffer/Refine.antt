-- ===== src/ProtocolBuffer/Refine.antt =====
-- ProtocolBuffer.cpp against a bounded first-in first-out stream of bytes.
use jun_core_v.Common.{
  ℕ, ◌-◌, ◌≡◌, refl, sym, ap, inl, inr, List, [], ◌∷◌, ◌++◌, Option, none, some, length,
  length-eq-zero, take, drop, leb, leb→le, leb→lt, Bool-cases, if◌then◌else◌, arith,
}
use jun_core_v.Common.LittleEndian.{le_bytes, le_value}
use jun_core_v.ProtocolBuffer.{
  ProtocolBuffer, Scalar, size_of, clear, get_free_size, put_data, get_data, put, put_str, put_wstr,
  wide_bytes, get,
}
use jun_core_v.ProtocolBuffer.Stream.{
  IsValid, contents, length-contents, clear-IsValid, put_data_fits, put_data_throws, get_data_fits,
  get_data_throws,
}

-- What a client can ask of a buffer.
pub data Op : Type 0 where
  write : Scalar → ℕ → Op
  write_str : List ℕ → Op
  write_wstr : List ℕ → Op
  write_data : List ℕ → Op
  read : Scalar → Op
  read_data : ℕ → Op
  reset : Op

-- What a call hands to the caller.
pub data Reply : Type 0 where
  done : Reply
  value : ℕ → Reply
  bytes : List ℕ → Reply

abbrev wrote {ℓ} : {S : Type ℓ} → Option S → Option (Reply × S)
wrote none = none
wrote (some s) = some (done, s)

abbrev gave {ℓ κ} : {A : Type ℓ} {S : Type κ} → (A → Reply) → Option (A × S) → Option (Reply × S)
gave reply none = none
gave reply (some (a, s)) = some (reply a, s)

unfoldable pub step : ProtocolBuffer → Op → Option (Reply × ProtocolBuffer)
step b (write t n) = wrote (put t n b)
step b (write_str str) = wrote (put_str str b)
step b (write_wstr str) = wrote (put_wstr str b)
step b (write_data src) = wrote (put_data src b)
step b (read t) = gave value (get t b)
step b (read_data size) = gave bytes (get_data size b)
step b reset = some (done, clear b)

-- The replies up to the first call that throws, which is the last.
unfoldable pub run : ProtocolBuffer → List Op → List (Option Reply)
run b [] = []
run b (op ∷ ops) = elim (step b op) [
  | none ↦ none ∷ []
  | some (reply, b') ↦ some reply ∷ run b' ops
]

-- The bytes held, oldest first, and how many more can be written before the next `Clear`.
pub record Stream : Type 0 where
  pub held : List ℕ
  pub room : ℕ

abbrev append : List ℕ → Stream → Option Stream
append src q =
    if leb (length src) q.room
    then some (record { held = q.held ++ src; room = q.room - length src })
    else none

abbrev remove : ℕ → Stream → Option (List ℕ × Stream)
remove size q =
    if leb size (length q.held)
    then some (take size q.held, record { held = drop size q.held; room = q.room })
    else none

-- `total` is the size of the buffer.
unfoldable pub stream_step : ℕ → Stream → Op → Option (Reply × Stream)
stream_step total q (write t n) = wrote (append (le_bytes (size_of t) n) q)
stream_step total q (write_str str) = wrote (append str q)
stream_step total q (write_wstr str) = wrote (append (wide_bytes str) q)
stream_step total q (write_data src) = wrote (append src q)
stream_step total q (read t) = gave (λ out. value (le_value out)) (remove (size_of t) q)
stream_step total q (read_data size) = gave bytes (remove size q)
stream_step total q reset = some (done, record { held = []; room = total })

unfoldable pub stream_run : ℕ → Stream → List Op → List (Option Reply)
stream_run total q [] = []
stream_run total q (op ∷ ops) = elim (stream_step total q op) [
  | none ↦ none ∷ []
  | some (reply, q') ↦ some reply ∷ stream_run total q' ops
]

abbrev pub stream_of : ProtocolBuffer → Stream
stream_of b = record { held = contents b; room = get_free_size b }

-- The two answers to one call: both throw, or they agree and lead to related states.
data Agree (b : ProtocolBuffer)
    : Option (Reply × ProtocolBuffer) → Option (Reply × Stream) → Type 0 where
  both_throw : Agree b none none
  both_answer :
      (reply : Reply) (b' : ProtocolBuffer)
      → IsValid b'
      → b'.buf_size ≡ b.buf_size
      → Agree b (some (reply, b')) (some (reply, stream_of b'))

put_data-Agree :
    (b : ProtocolBuffer) (src : List ℕ)
    → IsValid b
    → Agree b (wrote (put_data src b)) (wrote (append src (stream_of b)))
put_data-Agree b src v = elim (Bool-cases (leb (length src) (get_free_size b))) [
  | inl fits ↦
      let (b', e, w) = put_data_fits b src v (leb→le _ _ fits) in
      rw (e, fits, sym w.appended, sym w.room) (both_answer done b' w.valid w.total)
  | inr over ↦ rw (put_data_throws b src v (leb→lt _ _ over), over) both_throw
]

get_data-Agree :
    (b : ProtocolBuffer) (size : ℕ) (reply : List ℕ → Reply)
    → IsValid b
    → Agree b (gave reply (get_data size b)) (gave reply (remove size (stream_of b)))
get_data-Agree b size reply v = elim (Bool-cases (leb size (length (contents b)))) [
  | inl fits ↦
      let (b', e, w) = get_data_fits b size v (omega (arith, leb→le _ _ fits, length-contents b)) in
      rw (e, fits, sym w.left, sym w.room)
        (both_answer (reply (take size (contents b))) b' w.valid w.total)
  | inr over ↦
      rw (get_data_throws b size v (omega (arith, leb→lt _ _ over, length-contents b)), over)
        both_throw
]

gave_value :
    (x : Option (List ℕ × ProtocolBuffer))
    → gave value (elim x [ none ↦ none | some (out, b) ↦ some (le_value out, b) ])
      ≡ gave (λ out. value (le_value out)) x
gave_value none = refl
gave_value (some (out, b)) = refl

gave-get :
    (t : Scalar) (b : ProtocolBuffer)
    → gave value (get t b) ≡ gave (λ out. value (le_value out)) (get_data (size_of t) b)
unfolding get
gave-get t b = gave_value (get_data (size_of t) b)

clear-Agree :
    (b : ProtocolBuffer) → IsValid b → stream_of (clear b) ≡ record { held = []; room = b.buf_size }
unfolding clear
clear-Agree b v = λ i. record { held = nothing i; room = whole i }
  where
    nothing : contents (clear b) ≡ []
    nothing =
        length-eq-zero (contents (clear b))
          (unfold clear in omega (arith, length-contents (clear b)))

    whole : get_free_size (clear b) ≡ b.buf_size
    whole = unfold clear in omega arith

step-Agree :
    (b : ProtocolBuffer) (op : Op)
    → IsValid b
    → Agree b (step b op) (stream_step b.buf_size (stream_of b) op)
unfolding step stream_step put put_str put_wstr
step-Agree b (write t n) v = put_data-Agree b (le_bytes (size_of t) n) v
step-Agree b (write_str str) v = put_data-Agree b str v
step-Agree b (write_wstr str) v = put_data-Agree b (wide_bytes str) v
step-Agree b (write_data src) v = put_data-Agree b src v
step-Agree b (read t) v =
    rw (gave-get t b) (get_data-Agree b (size_of t) (λ out. value (le_value out)) v)
step-Agree b (read_data size) v = get_data-Agree b size bytes v
step-Agree b reset v =
    rw (sym (clear-Agree b v))
      (both_answer done (clear b) (clear-IsValid b v) (unfold clear in refl))

-- Answers that agree are followed by replies that agree.
answers-Agree :
    {b : ProtocolBuffer} {x : Option (Reply × ProtocolBuffer)} {y : Option (Reply × Stream)}
    (ops : List Op)
    → Agree b x y
    → ((b' : ProtocolBuffer) → IsValid b' → run b' ops ≡ stream_run b'.buf_size (stream_of b') ops)
    → elim x [ none ↦ none ∷ [] | some (reply, b') ↦ some reply ∷ run b' ops ]
      ≡ elim y [ none ↦ none ∷ [] | some (reply, q') ↦ some reply ∷ stream_run b.buf_size q' ops ]
answers-Agree ops both_throw go = refl
answers-Agree ops (both_answer reply b' v same) go = ap (◌∷◌ (some reply)) (rw (sym same) (go b' v))

-- For every sequence of reads, writes and clears on a valid buffer, the replies are those of the
-- bounded stream of its bytes, and a call throws just where the stream has no room or too few bytes.
pub replies_refine :
    (b : ProtocolBuffer) (ops : List Op)
    → IsValid b
    → run b ops ≡ stream_run b.buf_size (stream_of b) ops
unfolding run stream_run
replies_refine b [] v = refl
replies_refine b (op ∷ ops) v =
    answers-Agree ops (step-Agree b op v) (λ b' v'. replies_refine b' ops v')
