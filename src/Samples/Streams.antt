-- ===== src/Samples/Streams.antt =====
-- The frame and stream readers on concrete bytes.
use sniffy.Common.{
  ℕ, zero, suc, ◌+◌, ◌≡◌, refl, true, false, [], ◌∷◌, ◌++◌, Option, none, some, arith, length,
}
use sniffy.Common.Bytes.{Bytes, codes}
use sniffy.WebSocket.Frame.{
  Frame, ok, err, too_large, op_text, read_frame, write_frame, max_frame_payload,
}
use sniffy.WebSocket.RoundTrip.{read-write_frame, read-write_frame_too_large}
use sniffy.WebSocket.Session.{Recorder, records, closes, gives, new_recorder, run}
use sniffy.WebSocket.Announced.{Agrees, new_recorder-Agrees}
use sniffy.Stream.Sse.{Event, push-append, push-raw_bytes, raw_bytes, line_feed}
use sniffy.Stream.Grpc.{push_frames-append, push-reframe_grpc, plain_frame, reframed}

abbrev hello : Frame
hello = record { fin = true; opcode = op_text; payload = codes "hello" }

abbrev key : Option Bytes
key = some (0x37 ∷ 0xfa ∷ 0x21 ∷ 0x3d ∷ [])

read-write_frame_example :
    read_frame (write_frame hello key ++ codes "rest") ≡ ok (hello, codes "rest")
read-write_frame_example =
    read-write_frame hello key (codes "rest") (omega arith) (omega arith) refl

zeros : ℕ → Bytes
zeros zero = []
zeros (suc n) = 0 ∷ zeros n

length-zeros : (n : ℕ) → length (zeros n) ≡ n
unfolding zeros
length-zeros zero = refl
length-zeros (suc n) = omega (arith, length-zeros n)

huge_length : length (zeros (max_frame_payload + 1)) ≡ max_frame_payload + 1
huge_length = length-zeros (max_frame_payload + 1)

read-write_frame_too_large_example :
    let n = max_frame_payload + 1 in
    read_frame (write_frame (record hello { payload = zeros n }) none ++ [])
    ≡ err (too_large (length (zeros n)))
read-write_frame_too_large_example =
    read-write_frame_too_large (record hello { payload = zeros (max_frame_payload + 1) }) none []
      (omega (arith, huge_length)) (omega (arith, huge_length))

new_recorder-Agrees_example :
    (r : Recorder) × (new_recorder true (codes "s1") (codes "ws://a.test") 5 ≡ some r)
    × Agrees (codes "hi" ∷ []) (
        run r (
          records (codes "m1") 6 (codes "up") (codes "text") (codes "hi")
          ∷ closes 9
          ∷ gives 0
          ∷ []))
new_recorder-Agrees_example =
    new_recorder-Agrees (codes "s1") (codes "ws://a.test") 5
      (records (codes "m1") 6 (codes "up") (codes "text") (codes "hi") ∷ closes 9 ∷ gives 0 ∷ [])

abbrev sse_bytes : Bytes
sse_bytes = codes "data: a" ++ 10 ∷ 10 ∷ codes "data: b"

push-append_example :
    let first = sniffy.Stream.Sse.push [] (codes "data: a") in
    let second = sniffy.Stream.Sse.push first.1 (10 ∷ 10 ∷ codes "data: b") in
    sniffy.Stream.Sse.push [] sse_bytes ≡ (first.0 ++ second.0, second.1)
push-append_example = push-append [] (codes "data: a") (10 ∷ 10 ∷ codes "data: b")

abbrev new_scanner : sniffy.Stream.Grpc.GrpcScanner
new_scanner = record { buf = []; overflow = false }

-- A length of 2 ^ 32 - 1 stops the scanner in the second read.
push_frames-append_example :
    let first = sniffy.Stream.Grpc.push new_scanner (0 ∷ 255 ∷ []) in
    let second = sniffy.Stream.Grpc.push first.1 (255 ∷ 255 ∷ 255 ∷ 1 ∷ []) in
    sniffy.Stream.Grpc.push new_scanner (0 ∷ 255 ∷ 255 ∷ 255 ∷ 255 ∷ 1 ∷ [])
    ≡ (first.0 ++ second.0, second.1)
push_frames-append_example =
    push_frames-append new_scanner (0 ∷ 255 ∷ []) (255 ∷ 255 ∷ 255 ∷ 1 ∷ [])
