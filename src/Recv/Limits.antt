-- ===== src/Recv/Limits.antt =====
-- Where `HandleRecvComplete` stops: bad lengths, too many packets, and packets that the receive
-- buffer is too small for.
use jun_core_v.Common.{
  Bool, ℕ, ◌%◌, ◌^◌, ◌≤◌, ◌<◌, ◌≡◌, refl, sym, subst, ◌∙◌, ◌⊎◌, inl, inr, List, [], ◌∷◌, ◌++◌,
  Option, some, length, take, arith,
}
use jun_core_v.Common.LittleEndian.{le_value}
use jun_core_v.RingBuffer.{RingBuffer, get_free_size, move_rear}
use jun_core_v.RingBuffer.Inv.{IsValid}
use jun_core_v.RingBuffer.Enqueue.{contents, Stored}
use jun_core_v.RingBuffer.Dequeue.{length-contents}
use jun_core_v.Protocol.{is_valid_packet_size, max_packet_size}
use jun_core_v.Session.{Session, recv_bufs}
use jun_core_v.Recv.{
  Handler, Outcome, loop_count_reached, invalid_packet_length, invalid, next_packet,
  handle_recv_complete,
}
use jun_core_v.Recv.Frames.{Packet, stream, AreWords}
use jun_core_v.Recv.Assembly.{peek_length}
use jun_core_v.Recv.Delivery.{recv_loop_gives_up, recv_loop_invalid}
use jun_core_v.Recv.Stream.{Kernel, IsScatter, stored, complete}

next_packet_invalid :
    {r : RingBuffer}
    → IsValid r
    → 8 ≤ length (contents r)
    → (le_value (take 4 (contents r)) < 8) ⊎ (max_packet_size < le_value (take 4 (contents r)))
    → next_packet r ≡ invalid
unfolding next_packet is_valid_packet_size
next_packet_invalid {r} v h (inl bad) = ground (arith, length-contents r, peek_length v)
next_packet_invalid {r} v h (inr bad) = ground (arith, length-contents r, peek_length v)

-- The session when `bytes` have arrived, before the loop.
abbrev arrived : Kernel → ℕ → List ℕ → Session → Session
arrived kernel now bytes s = record s {
  recv_buf =
      move_rear (length bytes)
        (record s.recv_buf { memory = kernel (recv_bufs s.recv_buf) bytes s.recv_buf.memory });
  last_recv_time = now % 2 ^ 32;
}

module _ {App : Type 0} (handlers : ℕ → Option (Handler App)) (kernel : Kernel)
    (posted : Bool) where
  -- One completion after another, whether or not the one before has asked for it.
  unfoldable pub complete_all : ℕ → List (List ℕ) → Session → App → Session × App
  complete_all now [] s app = (s, app)
  complete_all now (bytes ∷ pieces) s app =
      let (_, s', app') = complete handlers kernel posted now bytes s app in
      complete_all now pieces s' app'

  -- A header whose length is out of range ends the receiving: nothing is delivered or taken out,
  -- and no further receive is posted.
  pub complete_invalid :
      IsScatter kernel
      → (s : Session) (app : App) (now : ℕ) (bytes : List ℕ) → IsValid s.recv_buf
      → length bytes ≤ get_free_size s.recv_buf
      → let held = contents s.recv_buf ++ bytes in
        8 ≤ length held
        → (le_value (take 4 held) < 8) ⊎ (max_packet_size < le_value (take 4 held))
        → let (out, s', app') = complete handlers kernel posted now bytes s app in
          (out ≡ invalid_packet_length) × (app' ≡ app) × (contents s'.recv_buf ≡ held)
  unfolding complete handle_recv_complete
  complete_invalid scatters s app now bytes v room long bad =
      subst
        (λ (o : Outcome × Session × App).
          (o.0 ≡ invalid_packet_length)
          × (o.2 ≡ app)
          × (contents o.1.recv_buf ≡ contents s.recv_buf ++ bytes))
        (sym (recv_loop_invalid handlers posted 999 s' app head)) (refl, refl, st.appended)
    where
      s' : Session
      s' = arrived kernel now bytes s

      st : Stored s.recv_buf bytes s'.recv_buf
      st = stored handlers kernel scatters s.recv_buf bytes v room

      head : next_packet s'.recv_buf ≡ invalid
      head = next_packet_invalid st.valid (subst (λ xs. 8 ≤ length xs) (sym st.appended) long) (
          subst (λ xs. (le_value (take 4 xs) < 8) ⊎ (max_packet_size < le_value (take 4 xs)))
            (sym st.appended) bad)

  -- A completion after which a thousand whole packets are in the buffer ends the receiving, though
  -- nothing is wrong with any of them.
  pub complete_gives_up :
      IsScatter kernel
      → (s : Session) (app : App) (engine now : ℕ) (ps : List Packet) (rest bytes : List ℕ)
      → IsValid s.recv_buf
      → s.engine ≡ some engine
      → length bytes ≤ get_free_size s.recv_buf
      → contents s.recv_buf ++ bytes ≡ stream ps ++ rest
      → AreWords ps
      → 1000 ≤ length ps
      → (complete handlers kernel posted now bytes s app).0 ≡ loop_count_reached
  unfolding complete handle_recv_complete
  complete_gives_up scatters s app engine now ps rest bytes v e room held w many =
      let st = stored handlers kernel scatters s.recv_buf bytes v room in
      recv_loop_gives_up handlers posted ps 1000 (arrived kernel now bytes s) app engine rest
        st.valid e (st.appended ∙ held) w many
