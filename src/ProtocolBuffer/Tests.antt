-- ===== src/ProtocolBuffer/Tests.antt =====
-- The protocol buffer at concrete inputs: 16 bytes at address 64.
use jun_core_v.Common.{◌%◌, ◌≡◌, refl, List, [], ◌∷◌, none, some}
use jun_core_v.Common.Memory.{Memory, read_bytes, write_bytes}
use jun_core_v.Common.LittleEndian.{le_bytes, le_value}
use jun_core_v.ProtocolBuffer.{
  ProtocolBuffer, protocol_buffer, char, int, short, clear, put_data, get_data, put, put_str,
  put_wstr, wide_bytes, get,
}
use jun_core_v.ProtocolBuffer.Stream.{IsValid, protocol_buffer-IsValid}
use jun_core_v.ProtocolBuffer.Refine.{
  Op, write, write_wstr, read, read_data, reset, done, value, bytes, run, step, stream_run,
  stream_of, replies_refine,
}
use jun_core_v.ProtocolBuffer.Roundtrip.{Object}

abbrev pattern_memory : Memory
pattern_memory a = a % 100

fresh : ProtocolBuffer
fresh = protocol_buffer pattern_memory 64 16

fresh-IsValid : IsValid fresh
unfolding fresh
fresh-IsValid = protocol_buffer-IsValid pattern_memory 64 16

script : List Op
script =
    write int 258
    ∷ write_wstr (65 ∷ 300 ∷ [])
    ∷ read short
    ∷ read_data 3
    ∷ reset
    ∷ write char 7
    ∷ read int
    ∷ []

run-script :
    run fresh script
    ≡ some done
      ∷ some done
      ∷ some (value 258)
      ∷ some (bytes (0 ∷ 0 ∷ 65 ∷ []))
      ∷ some done
      ∷ some done
      ∷ none
      ∷ []
unfolding fresh protocol_buffer script run step put put_data put_str put_wstr wide_bytes get
    get_data clear le_bytes le_value read_bytes write_bytes
run-script = refl

replies_refine_example : run fresh script ≡ stream_run fresh.buf_size (stream_of fresh) script
replies_refine_example = replies_refine fresh script fresh-IsValid

abbrev objects : List Object
objects = (int, 70000) ∷ (char, 200) ∷ (short, 513) ∷ []
