-- ===== src/Stream/Sse.antt =====
-- capture/processors/http/streaming.go: `sseScanner`, server-sent events.
use sniffy.Common.{
  ℕ, zero, suc, ◌≤◌, ◌≡◌, refl, ap, inl, inr, Bool, true, ◌&&◌, List, [], ◌∷◌, ◌++◌, append_assoc,
  Option, none, some, arith, length, take, ◌==◌, if◌then◌else◌, is_nil, Bool-cases, Option-cases,
}
use sniffy.Common.Bytes.{Bytes, Text, codes, text_eq}
use sniffy.Common.Trim.{split_at_byte}
use sniffy.Stream.Scan.{Next, item, wait, scan, IsStable, scan-append, scan_keeps, flat}

abbrev pub line_feed : ℕ
line_feed = 10

abbrev pub carriage_return : ℕ
carriage_return = 13

-- `sseEvent`; no `data` field at all is `none`.
pub record Event : Type 0 where
  pub raw : Bytes
  pub payload : Option Bytes
  pub event : Text

-- Behind a line break: how many bytes an empty line takes.
unfoldable pub blank_line : Bytes → Option ℕ
blank_line [] = none
blank_line (b ∷ []) = if b == line_feed then some 1 else none
blank_line (b ∷ c ∷ s) =
    if b == line_feed
    then some 1
    else if (b == carriage_return) && (c == line_feed)
    then some 2
    else none

unfoldable pub shifted : Option ℕ → Option ℕ
shifted none = none
shifted (some i) = some (suc i)

found_or : Option ℕ → Option ℕ → Option ℕ
found_or none later = later
found_or (some k) later = some (suc k)

-- `indexSSEBoundary`, with `none` for -1.
unfoldable pub index_sse_boundary : Bytes → Option ℕ
unfolding shifted found_or
index_sse_boundary [] = none
index_sse_boundary (b ∷ s) =
    let later = shifted (index_sse_boundary s) in
    if b == line_feed then found_or (blank_line s) later else later

-- `bytes.TrimSuffix(line, "\r")`.
unfoldable pub trim_cr : Bytes → Bytes
trim_cr [] = []
trim_cr (b ∷ []) = if b == carriage_return then [] else b ∷ []
trim_cr (b ∷ c ∷ s) = b ∷ trim_cr (c ∷ s)

-- The field name and the value of a line; the value is without one leading space.
unfoldable pub field_of : Bytes → Bytes
field_of [] = []
field_of (b ∷ s) = if b == b':' then [] else b ∷ field_of s

skip_space : Bytes → Bytes
skip_space [] = []
skip_space (b ∷ s) = if b == b' ' then s else b ∷ s

unfoldable pub value_of : Bytes → Bytes
unfolding skip_space
value_of [] = []
value_of (b ∷ s) = if b == b':' then skip_space s else value_of s

-- `data` with one more line.
add_data : Option Bytes → Bytes → Option Bytes
add_data none value = some value
add_data (some d) value = some (d ++ line_feed ∷ value)

starts_with_colon : Bytes → Bool
starts_with_colon [] = true
starts_with_colon (b ∷ s) = b == b':'

-- One round of the loop over the lines: the event's name and data so far.
unfoldable pub sse_line : Text × Option Bytes → Bytes → Text × Option Bytes
unfolding trim_cr field_of value_of add_data starts_with_colon
sse_line (event, payload) raw =
    let line = trim_cr raw in
    if starts_with_colon line
    then (event, payload)
    else if text_eq (field_of line) (codes "event")
    then (value_of line, payload)
    else if text_eq (field_of line) (codes "data")
    then (event, add_data payload (value_of line))
    else (event, payload)

unfoldable pub sse_lines : Text × Option Bytes → List Bytes → Text × Option Bytes
unfolding sse_line
sse_lines s [] = s
sse_lines s (l ∷ ls) = sse_lines (sse_line s l) ls

-- `parseSSEBlock`.
unfoldable pub parse_sse_block : Bytes → Event
unfolding sse_lines
parse_sse_block block =
    let s = sse_lines ([], none) (split_at_byte line_feed block) in
    record { raw = block; payload = s.1; event = s.0 }

-- The front of the buffer.
unfoldable pub next_event : Bytes → Next Event
next_event buf = elim (index_sse_boundary buf) [
  | none ↦ wait
  | some end ↦ item (parse_sse_block (take end buf)) end
]

-- `push`: the events that are complete, and the new buffer.
unfoldable pub push : Bytes → Bytes → List Event × Bytes
unfolding next_event
push buf p = let s = scan next_event (buf ++ p) in (s.items, s.rest)

-- `flush`: the bytes at the end of the stream, and an empty buffer.
unfoldable pub flush : Bytes → Bytes × Bytes
flush buf = (buf, [])

-- `reserializeSSE`.
data_lines : List Bytes → Bytes
data_lines [] = []
data_lines (l ∷ ls) = codes "data: " ++ (l ++ line_feed ∷ data_lines ls)

unfoldable pub reserialize_sse : Text → Bytes → Bytes
unfolding data_lines
reserialize_sse event payload =
    (if is_nil event then [] else codes "event: " ++ (event ++ line_feed ∷ []))
    ++ ((if is_nil payload then [] else data_lines (split_at_byte line_feed payload))
        ++ line_feed ∷ [])

blank_line_stays :
    (x q : Bytes) (k : ℕ)
    → blank_line x ≡ some k
    → (blank_line (x ++ q) ≡ some k) × (1 ≤ k) × (k ≤ length x)
unfolding blank_line
blank_line_stays [] q k e = cc
blank_line_stays (b ∷ []) [] k e = ground arith
blank_line_stays (b ∷ []) (c ∷ q) k e = ground arith
blank_line_stays (b ∷ c ∷ x) q k e = ground arith

-- Where no empty line begins but a boundary follows, more bytes do not make one begin.
no_blank_line_stays :
    (s q : Bytes) (i : ℕ)
    → blank_line s ≡ none
    → index_sse_boundary s ≡ some i
    → blank_line (s ++ q) ≡ none
unfolding index_sse_boundary blank_line
no_blank_line_stays [] q i e h = cc
no_blank_line_stays (b ∷ []) q i e h = absurd (ground arith)
no_blank_line_stays (b ∷ c ∷ s) q i e h = e

index_sse_boundary_stays :
    (x q : Bytes) (n : ℕ)
    → index_sse_boundary x ≡ some n
    → (index_sse_boundary (x ++ q) ≡ some n) × (1 ≤ n) × (n ≤ length x)
unfolding index_sse_boundary
index_sse_boundary_stays [] q n e = absurd (ground arith)
index_sse_boundary_stays (b ∷ s) q n e = elim (Option-cases (blank_line s)) [
  | inr (k, h) ↦ elim (Bool-cases (b == line_feed)) [
    | inl l ↦ ground (arith, blank_line_stays s q k h)
    | inr l ↦ elim (Option-cases (index_sse_boundary s)) [
      | inl i ↦ absurd (ground arith)
      | inr (i, r) ↦ ground (arith, index_sse_boundary_stays s q i r)
    ]
  ]
  | inl h ↦ elim (Option-cases (index_sse_boundary s)) [
    | inl i ↦ absurd (ground arith)
    | inr (i, r) ↦ ground (arith, index_sse_boundary_stays s q i r, no_blank_line_stays s q i h r)
  ]
]

take-append_le {ℓ} :
    {A : Type ℓ} (k : ℕ) (xs ys : List A) → k ≤ length xs → take k (xs ++ ys) ≡ take k xs
take-append_le zero xs ys h = refl
take-append_le (suc k) [] ys h = absurd (omega arith)
take-append_le (suc k) (x ∷ xs) ys h = ap (◌∷◌ x) (take-append_le k xs ys (omega arith))

next_event_item :
    (x q : Bytes) (a : Event) (n : ℕ)
    → next_event x ≡ item a n
    → (next_event (x ++ q) ≡ item a n) × (1 ≤ n) × (n ≤ length x)
unfolding next_event
next_event_item x q a n e = elim (Option-cases (index_sse_boundary x)) [
  | inl h ↦ absurd (ground arith)
  | inr (k, h) ↦ ground (arith, h, index_sse_boundary_stays x q k h, take-append_le k x q)
]

next_event-IsStable : IsStable next_event
next_event-IsStable = record {
  item_stays = λ x q a n e. (next_event_item x q a n e).0;
  item_fits = λ x a n e. let t = next_event_item x [] a n e in (t.1, t.2);
  stop_stays = λ x q e. unfold next_event in ground arith;
  empty_waits = unfold next_event index_sse_boundary in refl;
}

-- The events and the buffer do not depend on how the stream is cut into reads: pushing two pieces
-- one after the other gives the events, and leaves the buffer, of pushing them as one.
pub push-append :
    (buf p q : Bytes)
    → let first = push buf p in
      let second = push first.1 q in push buf (p ++ q) ≡ (first.0 ++ second.0, second.1)
unfolding push
push-append buf p q =
    rw (← append_assoc buf p q, scan-append next_event next_event-IsStable (buf ++ p) q)

next_event-raw : (x : Bytes) (a : Event) (n : ℕ) → next_event x ≡ item a n → a.raw ≡ take n x
unfolding next_event parse_sse_block
next_event-raw x a n e = elim (Option-cases (index_sse_boundary x)) [
  | inl h ↦ absurd (ground arith)
  | inr (k, h) ↦ ground (arith, h)
]

abbrev pub raw_bytes : List Event → Bytes
raw_bytes [] = []
raw_bytes (e ∷ es) = e.raw ++ raw_bytes es

flat-raw_bytes :
    (es : List Event)
    → flat next_event next_event-IsStable (λ e. e.raw) next_event-raw es ≡ raw_bytes es
flat-raw_bytes [] = refl
flat-raw_bytes (e ∷ es) = ap (◌++◌ e.raw) (flat-raw_bytes es)

-- Nothing of the stream is lost: the raw bytes of the events, and then the buffer, are the old
-- buffer and the bytes that were pushed.
pub push-raw_bytes : (buf p : Bytes) → raw_bytes (push buf p).0 ++ (push buf p).1 ≡ buf ++ p
unfolding push
push-raw_bytes buf p =
    rw (← flat-raw_bytes (scan next_event (buf ++ p)).items)
      (scan_keeps next_event next_event-IsStable (λ e. e.raw) next_event-raw (buf ++ p))
