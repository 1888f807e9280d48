-- ===== src/Stream/Grpc.antt =====
-- capture/processors/http/streaming.go: `grpcScanner`, length-prefixed messages.
use sniffy.Common.{
  ℕ, zero, suc, ◌+◌, ◌*◌, ◌^◌, ◌≤◌, ◌≡◌, refl, ap, ◌∙◌, inl, inr, Bool, false, not, List, [], ◌∷◌,
  ◌++◌, append_assoc, map, arith, ltb, length, length-append, take, drop, take-append, drop-append,
  ◌==◌, if◌then◌else◌, Bool-cases, All, subst, append-nil,
}
use sniffy.Common.Bytes.{Bytes}
use sniffy.Common.Binary.{big_endian, big_endian-put, put_big_endian, length-put_big_endian}
use sniffy.Stream.Scan.{
  Next, item, wait, stop, Scanned, scan, IsStable, scan-append, resumed_stopped, scan_item, drain,
  scan_keeps, flat, with_item,
}

-- `grpcMaxMessage`, 16 MiB.
abbrev pub grpc_max_message : ℕ
grpc_max_message = 16 * 2 ^ 20

-- `grpcFrame`.
pub record GrpcFrame : Type 0 where
  pub raw : Bytes
  pub payload : Bytes
  pub compressed : Bool

-- `grpcScanner`.
pub record GrpcScanner : Type 0 where
  pub buf : Bytes
  pub overflow : Bool

unfoldable pub is_compressed : Bytes → Bool
is_compressed [] = false
is_compressed (b ∷ s) = not (b == 0)

frame_of : Bytes → GrpcFrame
unfolding is_compressed
frame_of raw = record { raw = raw; payload = drop 5 raw; compressed = is_compressed raw }

-- The announced length, at bytes 1 to 4 of the buffer.
unfoldable pub announced : Bytes → ℕ
unfolding big_endian
announced buf = big_endian 0 (take 4 (drop 1 buf))

-- The front of the buffer.
unfoldable pub next_frame : Bytes → Next GrpcFrame
unfolding frame_of
next_frame buf =
    if ltb (length buf) 5
    then wait
    else if ltb grpc_max_message (announced buf)
    then stop
    else if ltb (length buf) (5 + announced buf)
    then wait
    else item (frame_of (take (5 + announced buf) buf)) (5 + announced buf)

scanned_frames : Scanned GrpcFrame → List GrpcFrame × GrpcScanner
scanned_frames s = (s.items, record { buf = s.rest; overflow = s.stopped })

-- `push`: after an overflow the bytes are only collected.
unfoldable pub push : GrpcScanner → Bytes → List GrpcFrame × GrpcScanner
unfolding scanned_frames
push s p =
    if s.overflow
    then ([], record s { buf = s.buf ++ p })
    else scanned_frames (scan next_frame (s.buf ++ p))

-- `flush`.
unfoldable pub flush : GrpcScanner → Bytes × GrpcScanner
flush s = (s.buf, record s { buf = [] })

-- `reframeGRPC`.
unfoldable pub reframe_grpc : Bytes → Bytes
unfolding put_big_endian
reframe_grpc payload = 0 ∷ (put_big_endian 4 (length payload) ++ payload)

take-append_le {ℓ} :
    {A : Type ℓ} (k : ℕ) (xs ys : List A) → k ≤ length xs → take k (xs ++ ys) ≡ take k xs
take-append_le zero xs ys h = refl
take-append_le (suc k) [] ys h = absurd (omega arith)
take-append_le (suc k) (x ∷ xs) ys h = ap (◌∷◌ x) (take-append_le k xs ys (omega arith))

announced-append : (x q : Bytes) → 5 ≤ length x → announced (x ++ q) ≡ announced x
unfolding announced
announced-append [] q h = absurd (omega arith)
announced-append (b ∷ x) q h = ap (big_endian 0) (take-append_le 4 x q (omega arith))

next_frame_item :
    (x q : Bytes) (f : GrpcFrame) (n : ℕ)
    → next_frame x ≡ item f n
    → (next_frame (x ++ q) ≡ item f n) × (1 ≤ n) × (n ≤ length x)
unfolding next_frame
next_frame_item x q f n e =
    ground (arith, announced-append x q, length-append x q, take-append_le (5 + announced x) x q)

next_frame_stop : (x q : Bytes) → next_frame x ≡ stop → next_frame (x ++ q) ≡ stop
unfolding next_frame
next_frame_stop x q e = ground (arith, announced-append x q, length-append x q)

next_frame-IsStable : IsStable next_frame
next_frame-IsStable = record {
  item_stays = λ x q a n e. (next_frame_item x q a n e).0;
  item_fits = λ x a n e. let t = next_frame_item x [] a n e in (t.1, t.2);
  stop_stays = next_frame_stop;
  empty_waits = unfold next_frame in refl;
}

-- The frames and the scanner do not depend on how the stream is cut into reads, nor on where in
-- them a length above the limit makes the scanner give up.
pub push_frames-append :
    (s : GrpcScanner) (p q : Bytes)
    → let first = push s p in
      let second = push first.1 q in push s (p ++ q) ≡ (first.0 ++ second.0, second.1)
unfolding push
push_frames-append s p q = elim (Bool-cases s.overflow) [
  | inl o ↦ rw (o, ← append_assoc s.buf p q)
  | inr o ↦
      rw (o, ← append_assoc s.buf p q, scan-append next_frame next_frame-IsStable (s.buf ++ p) q)
        (elim (Bool-cases (scan next_frame (s.buf ++ p)).stopped) [
          | inl gave_up ↦
              rw (gave_up, resumed_stopped next_frame next_frame-IsStable (s.buf ++ p) q gave_up)
                (rw (append-nil (scan next_frame (s.buf ++ p)).items))
          | inr goes_on ↦ rw goes_on
        ])
]

length-reframe_grpc : (payload : Bytes) → length (reframe_grpc payload) ≡ 5 + length payload
unfolding reframe_grpc
length-reframe_grpc payload = omega (
  arith,
  length-append (put_big_endian 4 (length payload)) payload,
  length-put_big_endian 4 (length payload),
)

take-put : (n : ℕ) (s : Bytes) → take 4 (put_big_endian 4 n ++ s) ≡ put_big_endian 4 n
take-put n s =
    subst (λ k. take k (put_big_endian 4 n ++ s) ≡ put_big_endian 4 n) (length-put_big_endian 4 n)
      (take-append (put_big_endian 4 n) s)

announced_bytes : (s : Bytes) → announced s ≡ big_endian 0 (take 4 (drop 1 s))
unfolding announced
announced_bytes s = refl

drop-header :
    (payload q : Bytes)
    → drop 1 (reframe_grpc payload ++ q) ≡ put_big_endian 4 (length payload) ++ (payload ++ q)
unfolding reframe_grpc
drop-header payload q = append_assoc (put_big_endian 4 (length payload)) payload q

announced-reframe :
    (payload q : Bytes)
    → length payload ≤ grpc_max_message
    → announced (reframe_grpc payload ++ q) ≡ length payload
announced-reframe payload q h =
    announced_bytes (reframe_grpc payload ++ q)
    ∙ ap (λ r. big_endian 0 (take 4 r)) (drop-header payload q)
    ∙ ap (big_endian 0) (take-put (length payload) (payload ++ q))
    ∙ big_endian-put 4 (length payload) (omega arith)

take-reframe :
    (payload q : Bytes)
    → take (5 + length payload) (reframe_grpc payload ++ q) ≡ reframe_grpc payload
take-reframe payload q =
    subst (λ k. take k (reframe_grpc payload ++ q) ≡ reframe_grpc payload)
      (length-reframe_grpc payload) (take-append (reframe_grpc payload) q)

drop-reframe : (payload : Bytes) → drop 5 (reframe_grpc payload) ≡ payload
unfolding reframe_grpc
drop-reframe payload =
    subst (λ k. drop k (put_big_endian 4 (length payload) ++ payload) ≡ payload)
      (length-put_big_endian 4 (length payload))
      (drop-append (put_big_endian 4 (length payload)) payload)

is_compressed-reframe : (payload : Bytes) → is_compressed (reframe_grpc payload) ≡ false
unfolding is_compressed reframe_grpc
is_compressed-reframe payload = refl

-- The frame that a payload makes.
abbrev pub plain_frame : Bytes → GrpcFrame
plain_frame payload = record { raw = reframe_grpc payload; payload = payload; compressed = false }

next_frame-reframe :
    (payload q : Bytes)
    → length payload ≤ grpc_max_message
    → next_frame (reframe_grpc payload ++ q) ≡ item (plain_frame payload) (5 + length payload)
unfolding next_frame
next_frame-reframe payload q h =
    rw (announced-reframe payload q h, take-reframe payload q)
      (ground (
        arith,
        length-append (reframe_grpc payload) q,
        length-reframe_grpc payload,
        drop-reframe payload,
        is_compressed-reframe payload,
      ))

abbrev pub reframed : List Bytes → Bytes
reframed [] = []
reframed (p ∷ ps) = reframe_grpc p ++ reframed ps

scan-reframed :
    (ps : List Bytes)
    → All (λ p. length p ≤ grpc_max_message) ps
    → scan next_frame (reframed ps)
      ≡ record { items = map plain_frame ps; rest = []; stopped = false }
scan-reframed [] h = unfold scan drain in refl
scan-reframed (p ∷ ps) h =
    scan_item next_frame next_frame-IsStable (reframe_grpc p ++ reframed ps) (plain_frame p)
      (5 + length p) (next_frame-reframe p (reframed ps) h.0)
    ∙ ap (λ x. with_item (plain_frame p) (scan next_frame x))
        (subst (λ k. drop k (reframe_grpc p ++ reframed ps) ≡ reframed ps) (length-reframe_grpc p)
          (drop-append (reframe_grpc p) (reframed ps)))
    ∙ ap (with_item (plain_frame p)) (scan-reframed ps h.1)
    ∙ unfold with_item in refl

-- Payloads within the limit, framed one behind the other, come out of a new scanner as they are,
-- uncompressed, each with its own frame as its raw bytes, and nothing is left over.
pub push-reframe_grpc :
    (ps : List Bytes)
    → All (λ p. length p ≤ grpc_max_message) ps
    → push (record { buf = []; overflow = false }) (reframed ps)
      ≡ (map plain_frame ps, record { buf = []; overflow = false })
unfolding push
push-reframe_grpc ps h = rw (scan-reframed ps h)

next_frame-raw : (x : Bytes) (a : GrpcFrame) (n : ℕ) → next_frame x ≡ item a n → a.raw ≡ take n x
unfolding next_frame frame_of
next_frame-raw x a n e = ground arith

abbrev pub raw_bytes : List GrpcFrame → Bytes
raw_bytes [] = []
raw_bytes (f ∷ fs) = f.raw ++ raw_bytes fs

flat-raw_bytes :
    (fs : List GrpcFrame)
    → flat next_frame next_frame-IsStable (λ f. f.raw) next_frame-raw fs ≡ raw_bytes fs
flat-raw_bytes [] = refl
flat-raw_bytes (f ∷ fs) = ap (◌++◌ f.raw) (flat-raw_bytes fs)

-- The raw bytes of the frames, and then the buffer, are the old buffer and the bytes that were pushed.
pub push-raw_frames :
    (s : GrpcScanner) (p : Bytes) → raw_bytes (push s p).0 ++ (push s p).1.buf ≡ s.buf ++ p
unfolding push scanned_frames
push-raw_frames s p = elim (Bool-cases s.overflow) [
  | inl o ↦ rw o
  | inr o ↦
      rw (o, ← flat-raw_bytes (scan next_frame (s.buf ++ p)).items)
        (scan_keeps next_frame next_frame-IsStable (λ f. f.raw) next_frame-raw (s.buf ++ p))
]
