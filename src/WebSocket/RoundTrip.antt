-- ===== src/WebSocket/RoundTrip.antt =====
-- capture/processors/http/websocket/frame.go: what `writeFrame` writes, `readFrame` reads back.
use Prim.Native.Nat.{bit_and, bit_or}
use sniffy.Common.{
  ℕ, suc, ◌+◌, ◌/◌, ◌%◌, ◌^◌, ◌≤◌, ◌<◌, ◌≡◌, refl, ap, sym, inl, inr, Bool, true, false, not, ◌&&◌,
  [], ◌∷◌, ◌++◌, append_assoc, Option, none, some, arith, ltb, leb, length, ◌==◌, if◌then◌else◌,
  Bool-cases,
}
use sniffy.Common.Bytes.{Bytes}
use sniffy.Common.Binary.{
  passes_below, passes_below_sound, read_full-append, big_endian, big_endian-put, put_big_endian,
  length-put_big_endian, bit_xor_twice,
}
use sniffy.WebSocket.Frame.{
  Frame, ok, err, ◌>>=◌, too_large, max_frame_payload, take_bytes, byte_at, xor_mask, read_length,
  read_mask, read_frame, length_bytes, first_byte, write_frame,
}

take_bytes-append : (xs ys : Bytes) (n : ℕ) → n ≡ length xs → take_bytes n (xs ++ ys) ≡ ok (xs, ys)
unfolding take_bytes
take_bytes-append xs ys n e = rw (read_full-append xs ys n e, take_bytes)

length-xor_mask : (key : Bytes) (i : ℕ) (xs : Bytes) → length (xor_mask key i xs) ≡ length xs
unfolding xor_mask
length-xor_mask key i [] = refl
length-xor_mask key i (x ∷ xs) = ap suc (length-xor_mask key (i + 1) xs)

-- Masking twice with one key changes nothing.
pub xor_mask_twice : (key : Bytes) (i : ℕ) (xs : Bytes) → xor_mask key i (xor_mask key i xs) ≡ xs
unfolding xor_mask
xor_mask_twice key i [] = refl
xor_mask_twice key i (x ∷ xs) =
    λ j. bit_xor_twice x (byte_at key (bit_and i 3)) j ∷ xor_mask_twice key (i + 1) xs j

abbrev mask_bit : Bool → ℕ
mask_bit masked = if masked then 0x80 else 0

-- The second byte of a header, for each mask bit and each value of its other seven bits.
second_byte_table :
    (masked : Bool)
    → passes_below 128 (λ n.
      (if masked
        then not (bit_and (bit_or (mask_bit masked) n) 0x80 == 0)
        else bit_and (bit_or (mask_bit masked) n) 0x80 == 0)
      && (bit_and (bit_or (mask_bit masked) n) 0x7f == n))
      ≡ true
unfolding passes_below
second_byte_table true = refl
second_byte_table false = refl

second_byte :
    (masked : Bool) (n : ℕ)
    → n < 128
    → (not (bit_and (bit_or (mask_bit masked) n) 0x80 == 0) ≡ masked)
      × (bit_and (bit_or (mask_bit masked) n) 0x7f ≡ n)
second_byte masked n h =
    let t = passes_below_sound _ 128 (second_byte_table masked) n h in go masked t
  where
    go :
        (m : Bool)
        → ((if m
              then not (bit_and (bit_or (mask_bit masked) n) 0x80 == 0)
              else bit_and (bit_or (mask_bit masked) n) 0x80 == 0)
            && (bit_and (bit_or (mask_bit masked) n) 0x7f == n))
          ≡ true
        → (not (bit_and (bit_or (mask_bit masked) n) 0x80 == 0) ≡ m)
          × (bit_and (bit_or (mask_bit masked) n) 0x7f ≡ n)
    go true t = ground arith
    go false t = ground arith

first_byte_table :
    (passes_below 16
        (λ o. not (bit_and (bit_or o 0x80) 0x80 == 0) && (bit_and (bit_or o 0x80) 0x0f == o))
      ≡ true)
    × (passes_below 16 (λ o. (bit_and o 0x80 == 0) && (bit_and o 0x0f == o)) ≡ true)
unfolding passes_below
first_byte_table = (refl, refl)

first_byte_lem :
    (f : Frame)
    → f.opcode < 16
    → (not (bit_and (first_byte f) 0x80 == 0) ≡ f.fin) × (bit_and (first_byte f) 0x0f ≡ f.opcode)
unfolding first_byte
first_byte_lem f h = elim (Bool-cases f.fin) [
  | inl e ↦ ground (arith, passes_below_sound _ 16 first_byte_table.0 f.opcode h)
  | inr e ↦ ground (arith, passes_below_sound _ 16 first_byte_table.1 f.opcode h)
]

-- The length field: its first byte tells the mask bit and how to read the number.
record HasLength (masked : Bool) (n : ℕ) (field : Bytes) : Type 0 where
  head : ℕ
  extension : Bytes
  split : field ≡ head ∷ extension
  mask : not (bit_and head 0x80 == 0) ≡ masked
  reads : (rest : Bytes) → read_length (bit_and head 0x7f) (extension ++ rest) ≡ ok (n, rest)

two_bytes : (n : ℕ) → n < 65536 → big_endian 0 ((n / 2 ^ 8) % 256 ∷ n % 256 ∷ []) ≡ n
unfolding big_endian
two_bytes n h = omega arith

length_bytes-HasLength :
    (masked : Bool) (n : ℕ) → n < 256 ^ 8 → HasLength masked n (length_bytes (mask_bit masked) n)
unfolding length_bytes read_length
length_bytes-HasLength masked n h = elim (Bool-cases (ltb n 126)) [
  | inl short ↦
      let b = second_byte masked n (ground arith) in
      record {
        head = bit_or (mask_bit masked) n;
        extension = [];
        split = let m : n % 256 ≡ n = ground arith in rw (short, m);
        mask = b.0;
        reads = λ rest. rw b.1 (ground arith);
      }
  | inr long ↦ elim (Bool-cases (leb n 0xffff)) [
    | inl two ↦
        let b = second_byte masked 126 (omega arith) in
        record {
          head = bit_or (mask_bit masked) 126;
          extension = (n / 2 ^ 8) % 256 ∷ n % 256 ∷ [];
          split = rw (long, two);
          mask = b.0;
          reads = λ rest. rw b.1 (
              rw (take_bytes-append ((n / 2 ^ 8) % 256 ∷ n % 256 ∷ []) rest 2 refl)
                (ap (λ m. ok (m, rest)) (two_bytes n (ground arith))));
        }
    | inr eight ↦
        let b = second_byte masked 127 (omega arith) in
        record {
          head = bit_or (mask_bit masked) 127;
          extension = put_big_endian 8 n;
          split = rw (long, eight);
          mask = b.0;
          reads = λ rest. rw b.1 (
              rw (take_bytes-append (put_big_endian 8 n) rest 8 (sym (length-put_big_endian 8 n)))
                (ap (λ m. ok (m, rest)) (big_endian-put 8 n h)));
        }
  ]
]

-- Reading a header, and then what stands behind it.
read_frame-header :
    (b : ℕ) (masked : Bool) (n : ℕ) (field rest : Bytes)
    → n ≤ max_frame_payload
    → HasLength masked n field
    → read_frame (b ∷ (field ++ rest)) ≡ (do
      (mask, s₄) ← read_mask masked rest
      (payload, s₅) ← take_bytes n s₄
      ok (
        record {
          fin = not (bit_and b 0x80 == 0);
          opcode = bit_and b 0x0f;
          payload = if masked then xor_mask mask 0 payload else payload;
        },
        s₅,
      ))
unfolding read_frame
read_frame-header b masked n field rest h l =
    let fits : ltb max_frame_payload n ≡ false = ground arith in
    rw (
      l.split,
      take_bytes-append (b ∷ l.head ∷ []) (l.extension ++ rest) 2 refl,
      l.reads rest,
      fits,
      l.mask,
    )

abbrev pub KeyFits : Option Bytes → Type 0
KeyFits none = Unit
KeyFits (some key) = length key ≡ 4

fits_eight : (n : ℕ) → n ≤ max_frame_payload → n < 256 ^ 8
fits_eight n h = omega arith

same_frame :
    (f : Frame) (fin : Bool) (opcode : ℕ) (payload : Bytes)
    → fin ≡ f.fin
    → opcode ≡ f.opcode
    → payload ≡ f.payload
    → record { fin = fin; opcode = opcode; payload = payload } ≡ f
same_frame f fin opcode payload e₁ e₂ e₃ = cc

-- A frame that is written, with or without a mask, and read back gives the same frame, and leaves
-- exactly what follows it: where the opcode has four bits, the key four bytes, and the payload is
-- not above the limit.
pub read-write_frame :
    (f : Frame) (key : Option Bytes) (rest : Bytes)
    → f.opcode < 16
    → length f.payload ≤ max_frame_payload
    → KeyFits key
    → read_frame (write_frame f key ++ rest) ≡ ok (f, rest)
unfolding write_frame
read-write_frame f none rest o h k =
    let n = length f.payload in
    let b = first_byte_lem f o in
    let l = length_bytes-HasLength false n (fits_eight n h) in
    rw
      (
        append_assoc (length_bytes 0 n) f.payload rest,
        read_frame-header (first_byte f) false n (length_bytes 0 n) (f.payload ++ rest) h l,
      )
      (unfold read_mask in
        rw (take_bytes-append f.payload rest n refl)
          (ap (λ x. ok (x, rest)) (same_frame f _ _ f.payload b.0 b.1 refl)))
read-write_frame f (some key) rest o h k =
    let n = length f.payload in
    let b = first_byte_lem f o in
    let l = length_bytes-HasLength true n (fits_eight n h) in
    let masked = xor_mask key 0 f.payload in
    rw
      (
        append_assoc (length_bytes 0x80 n) (key ++ masked) rest,
        read_frame-header (first_byte f) true n (length_bytes 0x80 n) ((key ++ masked) ++ rest) h l,
      )
      (unfold read_mask in
        rw
          (
            append_assoc key masked rest,
            take_bytes-append key (masked ++ rest) 4 (sym k),
            take_bytes-append masked rest n (sym (length-xor_mask key 0 f.payload)),
          )
          (ap (λ x. ok (x, rest)) (same_frame f _ _ _ b.0 b.1 (xor_mask_twice key 0 f.payload))))

read_frame-header_too_large :
    (b : ℕ) (masked : Bool) (n : ℕ) (field rest : Bytes)
    → max_frame_payload < n
    → HasLength masked n field
    → read_frame (b ∷ (field ++ rest)) ≡ err (too_large n)
unfolding read_frame
read_frame-header_too_large b masked n field rest h l =
    let over : ltb max_frame_payload n ≡ true = ground arith in
    rw (
      l.split,
      take_bytes-append (b ∷ l.head ∷ []) (l.extension ++ rest) 2 refl,
      l.reads rest,
      over,
    )

-- A frame whose payload is above the limit, and has less than 2 ^ 64 bytes, is refused with its
-- length.
pub read-write_frame_too_large :
    (f : Frame) (key : Option Bytes) (rest : Bytes)
    → max_frame_payload < length f.payload
    → length f.payload < 256 ^ 8
    → read_frame (write_frame f key ++ rest) ≡ err (too_large (length f.payload))
unfolding write_frame
read-write_frame_too_large f none rest h w =
    let n = length f.payload in
    rw (append_assoc (length_bytes 0 n) f.payload rest) (
      read_frame-header_too_large (first_byte f) false n (length_bytes 0 n) (f.payload ++ rest) h
        (length_bytes-HasLength false n w))
read-write_frame_too_large f (some key) rest h w =
    let n = length f.payload in
    let body = key ++ xor_mask key 0 f.payload in
    rw (append_assoc (length_bytes 0x80 n) body rest) (
      read_frame-header_too_large (first_byte f) true n (length_bytes 0x80 n) (body ++ rest) h
        (length_bytes-HasLength true n w))
