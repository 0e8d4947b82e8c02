-- ===== src/Recv/Tests.antt =====
-- `HandleRecvComplete` at concrete inputs.
use jun_core_v.Common.{
  ℕ, ◌+◌, ◌*◌, ◌≡◌, refl, sym, append-nil, inl, List, [], ◌∷◌, true, false, Option, some, length,
  take, drop, replicate, zero, suc, ap, arith,
}
use jun_core_v.Common.Memory.{write_bytes}
use jun_core_v.Common.LittleEndian.{le_bytes}
use jun_core_v.RingBuffer.{RingBuffer, get_use_size, get_free_size}
use jun_core_v.RingBuffer.Circle.{circle}
use jun_core_v.RingBuffer.Enqueue.{contents}
use jun_core_v.Protocol.{header_bytes}
use jun_core_v.Session.{Session}
use jun_core_v.Recv.{Handler, on_packet_received, loop_count_reached}
use jun_core_v.Recv.Frames.{Packet, stream, AreWords, deliver}
use jun_core_v.Recv.Stream.{Kernel, IsScatter, complete, receive_all, stream_delivers}
use jun_core_v.Recv.Limits.{complete_gives_up}

-- A kernel that fills two buffers in order.
abbrev copy : Kernel
copy ((a, n) ∷ (b, k) ∷ []) bytes m = write_bytes (write_bytes m a (take n bytes)) b (drop n bytes)
copy _ bytes m = m

copy-IsScatter : IsScatter copy
copy-IsScatter a n b k bytes m h = refl

-- Every payload is put on a list.
abbrev collect : ℕ → Option (Handler (List (List ℕ)))
collect id = some (λ user payload app. (payload ∷ app, false))

-- A ring that holds `bytes` from the start of its block on.
abbrev holding : List ℕ → Session
holding bytes = record {
  sock = some 1;
  ip = 0;
  port = 0;
  send_flag = false;
  pending_disconnect = false;
  send_q = [];
  send_packet_arr = [];
  recv_buf = record {
    memory = write_bytes (λ a. 0) 8193 bytes;
    begin = 8192;
    end = 16384;
    front = 8192;
    rear = 8192 + length bytes;
    read_pos = 8193;
    write_pos = 8193 + length bytes;
  };
  last_recv_time = 0;
  engine = some 4;
  iocp_handle = some 2;
  owner_user = some 3;
}

packets : List Packet
packets = (7, 1 ∷ 2 ∷ []) ∷ (8, []) ∷ []

-- The two packets, cut inside the header of the second.
pieces : List (List ℕ)
pieces =
    (10 ∷ 0 ∷ 0 ∷ []) ∷ (0 ∷ 7 ∷ 0 ∷ 0 ∷ 0 ∷ 1 ∷ 2 ∷ 8 ∷ []) ∷ (0 ∷ 0 ∷ 0 ∷ 8 ∷ 0 ∷ 0 ∷ 0 ∷ []) ∷ []

deliver-packets : deliver collect (some 3) false packets [] ≡ ([] ∷ (1 ∷ 2 ∷ []) ∷ [], false)
unfolding packets deliver on_packet_received
deliver-packets = refl

stream_delivers_example :
    let (s', app') = receive_all collect copy true 5 pieces (holding []) [] in
    (contents s'.recv_buf ≡ [])
    × ((app', s'.pending_disconnect) ≡ deliver collect (some 3) false packets [])
unfolding pieces packets get_use_size circle header_bytes le_bytes
stream_delivers_example =
    stream_delivers collect copy copy-IsScatter 4000 4000 (omega arith) 5 pieces packets
      (holding []) [] 4 1 [] (omega arith) refl refl (ap (λ r. r.1) deliver-packets) refl
      (inl (omega arith)) (omega arith) (inl (omega arith)) (omega arith) (omega arith)
      (omega arith) (omega arith)

-- `n` packets with no payload.
burst : ℕ → List Packet
burst n = replicate n (8, [])

burst-AreWords : (n : ℕ) → AreWords (burst n)
unfolding burst
burst-AreWords zero = tt
burst-AreWords (suc n) = (omega arith, burst-AreWords n)

length-burst : (n : ℕ) → length (burst n) ≡ n
unfolding burst
length-burst zero = refl
length-burst (suc n) = ap suc (length-burst n)

length-stream-burst : (n : ℕ) → length (stream (burst n)) ≡ 8 * n
unfolding burst header_bytes le_bytes
length-stream-burst zero = omega arith
length-stream-burst (suc n) = omega (arith, length-stream-burst n)

complete_gives_up_example :
    (complete collect copy true 5 (stream (burst 1000)) (holding []) []).0 ≡ loop_count_reached
unfolding get_use_size get_free_size circle
complete_gives_up_example =
    complete_gives_up collect copy true copy-IsScatter (holding []) [] 4 5 (burst 1000) []
      (stream (burst 1000)) (omega arith) refl (omega (arith, length-stream-burst 1000))
      (sym (append-nil (stream (burst 1000)))) (burst-AreWords 1000)
      (omega (arith, length-burst 1000))
