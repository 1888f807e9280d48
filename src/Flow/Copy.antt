-- ===== src/Flow/Copy.antt =====
-- internal/flow/flow.go: snapshots of a flow, and when the wire form of a body may be replayed.
-- Values have no identity here: that a snapshot shares no memory with the flow is not modelled.
use sniffy.Common.{
  ◌≡◌, ◌≢◌, ◌↔◌, refl, ap, ◌⊎◌, not, List, [], ◌∷◌, map, Option, none, some, length, arith,
  if◌then◌else◌,
}
use sniffy.Common.Int.{ℤ, pos, is_pos}
use sniffy.Common.Bytes.{Text, Bytes, text_eq, text_eq_iff}
use sniffy.Flow.Types.{Flow, Request, Response, Headers, Metadata, ProcessInfo}

-- `Process` and `SetProcess`: the atomic pointer.
unfoldable pub set_process : Flow → ProcessInfo → Flow
set_process f p = record f { process = some p }

-- `cloneStrMap`.
unfoldable pub clone_str_map : Headers → Headers
clone_str_map none = none
clone_str_map (some h) = some (map (λ e. (e.0, map (λ v. v) e.1)) h)

clone_request : Request → Request
unfolding clone_str_map
clone_request r = record r {
  header = clone_str_map r.header;
  body = map (λ b. b) r.body;
  raw_headers = map (λ kv. kv) r.raw_headers;
}

clone_response : Response → Response
unfolding clone_str_map
clone_response r = record r {
  header = clone_str_map r.header;
  body = map (λ b. b) r.body;
  trailer = clone_str_map r.trailer;
}

clone_metadata : Metadata → Metadata
clone_metadata none = none
clone_metadata (some m) = some (map (λ e. (e.0, e.1)) m)

copy_option : {A : Type 0} → (A → A) → Option A → Option A
copy_option f none = none
copy_option f (some a) = some (f a)

-- `Clone` of a flow that is not nil. Its fields start at their zero values and are filled in.
unfoldable pub clone : Flow → Flow
unfolding clone_request clone_response clone_metadata copy_option
clone f = record {
  id = f.id;
  conn_id = f.conn_id;
  protocol = f.protocol;
  request = copy_option clone_request f.request;
  response = copy_option clone_response f.response;
  timing = f.timing;
  state = f.state;
  paused_at = f.paused_at;
  modified = f.modified;
  tags = map (λ t. t) f.tags;
  error = f.error;
  metadata = clone_metadata f.metadata;
  process = copy_option (λ p. p) f.process;
}

map_same : {A : Type 0} (g : A → A) → ((a : A) → g a ≡ a) → (xs : List A) → map g xs ≡ xs
map_same g h [] = refl
map_same g h (x ∷ xs) = λ i. h x i ∷ map_same g h xs i

clone_str_map_lem : (h : Headers) → clone_str_map h ≡ h
unfolding clone_str_map
clone_str_map_lem none = refl
clone_str_map_lem (some h) =
    ap some (
      map_same (λ e. (e.0, map (λ v. v) e.1)) (λ e i. (e.0, map_same (λ v. v) (λ v. refl) e.1 i)) h)

clone_request_lem : (r : Request) → clone_request r ≡ r
unfolding clone_request
clone_request_lem r = cc (
  clone_str_map_lem r.header,
  map_same (λ b. b) (λ b. refl) r.body,
  map_same (λ b. b) (λ b. refl) r.raw_headers,
)

clone_response_lem : (r : Response) → clone_response r ≡ r
unfolding clone_response
clone_response_lem r =
    cc (
      clone_str_map_lem r.header,
      map_same (λ b. b) (λ b. refl) r.body,
      clone_str_map_lem r.trailer,
    )

copy_option_lem :
    {A : Type 0} (g : A → A) → ((a : A) → g a ≡ a) → (o : Option A) → copy_option g o ≡ o
unfolding copy_option
copy_option_lem g h none = refl
copy_option_lem g h (some a) = ap some (h a)

clone_metadata_lem : (m : Metadata) → clone_metadata m ≡ m
unfolding clone_metadata
clone_metadata_lem none = refl
clone_metadata_lem (some m) = ap some (map_same (λ e. (e.0, e.1)) (λ e. refl) m)

-- A snapshot holds the same value in every field as the flow.
pub clone_lem : (f : Flow) → clone f ≡ f
unfolding clone
clone_lem f = cc (
  copy_option_lem clone_request clone_request_lem f.request,
  copy_option_lem clone_response clone_response_lem f.response,
  map_same (λ t. t) (λ t. refl) f.tags,
  clone_metadata_lem f.metadata,
  copy_option_lem (λ p. p) (λ p. refl) f.process,
)

-- `SetOriginalBody` of a request and of a response.
unfoldable pub set_original_request_body : Request → Option Bytes → Bytes → Text → Request
set_original_request_body r encoded decoded encoding = record r {
  orig_encoded_body = encoded;
  orig_decoded_body = decoded;
  orig_encoding = encoding;
}

unfoldable pub set_original_body : Response → Option Bytes → Bytes → Text → Response
set_original_body r encoded decoded encoding = record r {
  orig_encoded_body = encoded;
  orig_decoded_body = decoded;
  orig_encoding = encoding;
}

-- `OriginalEncodedBody`, over the three fields that it reads; `none` is nil.
unfoldable pub replay : Text → Option Bytes → Bytes → Bytes → Option Bytes
replay [] encoded decoded current = none
replay (c ∷ encoding) none decoded current = none
replay (c ∷ encoding) (some encoded) decoded current =
    if not (text_eq current decoded) then none else some encoded

unfoldable pub original_encoded_request_body : Request → Bytes → Option Bytes
unfolding replay
original_encoded_request_body r current =
    replay r.orig_encoding r.orig_encoded_body r.orig_decoded_body current

unfoldable pub original_encoded_body : Response → Bytes → Option Bytes
unfolding replay
original_encoded_body r current =
    replay r.orig_encoding r.orig_encoded_body r.orig_decoded_body current

-- `SetPassthroughBody`, `BodyFile` and `BodyLen`.
unfoldable pub set_passthrough_body : Response → Text → ℤ → Response
set_passthrough_body r path size = record r { body_file = path; body_size = size }

unfoldable pub body_len : Response → ℤ
body_len r = if is_pos r.body_size then r.body_size else pos (length r.body)

replay-cases :
    (encoding : Text) (encoded decoded current : Bytes)
    → ((replay encoding (some encoded) decoded current ≡ some encoded)
        ↔ ((encoding ≢ []) × (current ≡ decoded)))
      × ((replay encoding (some encoded) decoded current ≡ some encoded)
          ⊎ (replay encoding (some encoded) decoded current ≡ none))
unfolding replay
replay-cases [] encoded decoded current = (ground arith, ground arith)
replay-cases (c ∷ encoding) encoded decoded current =
    (ground (arith, text_eq_iff current decoded), ground arith)

-- The recorded wire bytes of a response are replayed exactly for a named encoding and a body that is
-- still the decoded one; in every other case nothing is replayed. A request does the same.
pub replay_iff_unedited :
    (q : Request) (r : Response) (encoded decoded current : Bytes) (encoding : Text)
    → let out =
        original_encoded_body (set_original_body r (some encoded) decoded encoding) current in
      let out' =
        original_encoded_request_body
          (set_original_request_body q (some encoded) decoded encoding)
          current in
      ((out ≡ some encoded) ↔ ((encoding ≢ []) × (current ≡ decoded)))
      × ((out ≡ some encoded) ⊎ (out ≡ none))
      × (out' ≡ out)
unfolding original_encoded_body original_encoded_request_body set_original_body
    set_original_request_body
replay_iff_unedited q r encoded decoded current encoding =
    let c = replay-cases encoding encoded decoded current in (c.0, c.1, refl)
