-- ===== src/WebSocket/Frame.antt =====
-- capture/processors/http/websocket/frame.go: RFC 6455 frames. A reader is the bytes that are to
-- come, up to the end of the stream.
use Prim.Native.Nat.{bit_and, bit_or, bit_xor}
use sniffy.Common.{
  ℕ, zero, suc, ◌+◌, ◌*◌, ◌/◌, ◌%◌, ◌^◌, Bool, not, ◌||◌, [], ◌∷◌, ◌++◌, Option, none, some, ltb,
  leb, length, ◌==◌, if◌then◌else◌,
}
use sniffy.Common.Bytes.{Bytes}
use sniffy.Common.Binary.{read_full, big_endian, put_big_endian}

abbrev pub op_continuation : ℕ
op_continuation = 0x0

abbrev pub op_text : ℕ
op_text = 0x1

abbrev pub op_binary : ℕ
op_binary = 0x2

-- `maxFramePayload`, 64 MiB.
abbrev pub max_frame_payload : ℕ
max_frame_payload = 64 * 2 ^ 20

-- `wsFrame`.
pub record Frame : Type 0 where
  pub fin : Bool
  pub opcode : ℕ
  pub payload : Bytes

unfoldable pub is_data : Frame → Bool
is_data f = f.opcode == op_continuation || f.opcode == op_text || f.opcode == op_binary

-- The stream ends too early, or the announced payload is too large.
pub data FrameError : Type 0 where
  short_read : FrameError
  too_large : ℕ → FrameError

pub data Result (A : Type 0) : Type 0 where
  ok : A → Result A
  err : FrameError → Result A

infixl 5 ◌>>=◌
abbrev pub ◌>>=◌ : {A B : Type 0} → Result A → (A → Result B) → Result B
ok a >>= f = f a
err e >>= f = err e

unfoldable pub take_bytes : ℕ → Bytes → Result (Bytes × Bytes)
unfolding read_full
take_bytes n s = elim (read_full n s) [ none ↦ err short_read | some p ↦ ok p ]

-- The byte at a place of a short array.
abbrev pub byte_at : Bytes → ℕ → ℕ
byte_at [] i = 0
byte_at (b ∷ bs) zero = b
byte_at (b ∷ bs) (suc i) = byte_at bs i

-- `payload[i] ^ mask[i&3]` from index `i` on.
unfoldable pub xor_mask : Bytes → ℕ → Bytes → Bytes
xor_mask key i [] = []
xor_mask key i (b ∷ bs) = bit_xor b (byte_at key (bit_and i 3)) ∷ xor_mask key (i + 1) bs

-- The length field, and what follows it.
unfoldable pub read_length : ℕ → Bytes → Result (ℕ × Bytes)
read_length n s =
    if n == 126
    then (do (ext, s') ← take_bytes 2 s; ok (big_endian 0 ext, s'))
    else if n == 127
    then (do (ext, s') ← take_bytes 8 s; ok (big_endian 0 ext, s'))
    else ok (n, s)

unfoldable pub read_mask : Bool → Bytes → Result (Bytes × Bytes)
read_mask masked s = if masked then take_bytes 4 s else ok (0 ∷ 0 ∷ 0 ∷ 0 ∷ [], s)

unfoldable pub within_limit : ℕ → Bytes → Result Bytes
within_limit n s = if ltb max_frame_payload n then err (too_large n) else ok s

-- `readFrame`: the frame, unmasked, and what is left of the stream.
unfoldable pub read_frame : Bytes → Result (Frame × Bytes)
unfolding within_limit
read_frame s = do
  (h, s₁) ← take_bytes 2 s
  let masked = not (bit_and (byte_at h 1) 0x80 == 0)
  (n, s₂) ← read_length (bit_and (byte_at h 1) 0x7f) s₁
  s₃ ← within_limit n s₂
  (mask, s₄) ← read_mask masked s₃
  (payload, s₅) ← take_bytes n s₄
  ok (
    record {
      fin = not (bit_and (byte_at h 0) 0x80 == 0);
      opcode = bit_and (byte_at h 0) 0x0f;
      payload = if masked then xor_mask mask 0 payload else payload;
    },
    s₅,
  )

-- The length field of the header, with the mask bit.
unfoldable pub length_bytes : ℕ → ℕ → Bytes
length_bytes mask_bit n =
    if ltb n 126
    then bit_or mask_bit (n % 256) ∷ []
    else if leb n 0xffff
    then bit_or mask_bit 126 ∷ (n / 2 ^ 8) % 256 ∷ n % 256 ∷ []
    else bit_or mask_bit 127 ∷ put_big_endian 8 n

unfoldable pub first_byte : Frame → ℕ
first_byte f = if f.fin then bit_or f.opcode 0x80 else f.opcode

-- `writeFrame` where no write fails: the bytes that go to the writer. The key is the four random
-- bytes of a client's frame; a server's frame has none.
unfoldable pub write_frame : Frame → Option Bytes → Bytes
write_frame f none = first_byte f ∷ (length_bytes 0 (length f.payload) ++ f.payload)
write_frame f (some key) =
    first_byte f ∷ (length_bytes 0x80 (length f.payload) ++ (key ++ xor_mask key 0 f.payload))
