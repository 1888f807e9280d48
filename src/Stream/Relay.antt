-- ===== src/Stream/Relay.antt =====
-- capture/processors/http/streaming.go: how a streamed response is passed on to the client, message
-- by message. What the world decides is an argument: IDs and times of the messages, what the reads
-- of the body give, and which writes to the client succeed.
use sniffy.Common.{
  ℕ, suc, Bool, false, List, [], ◌∷◌, ◌++◌, Option, none, some, is_nil, if◌then◌else◌,
}
use sniffy.Common.Bytes.{Text, Bytes, codes, text_eq}
use sniffy.Flow.{StreamMessage, Decision, continue_decision}
use sniffy.Pipeline.{Registry, on_stream_message, is_abort}
use sniffy.Stream.Recorder.{Recorder, next_seq, add, flow_id}
use sniffy.Stream.Sse
use sniffy.Stream.Grpc

-- `StreamSSE`, `StreamGRPC` and `StreamChunk`.
pub data StreamKind : Type 0 where
  sse grpc chunk : StreamKind

abbrev pub kind_text : StreamKind → Text
kind_text sse = codes "sse"
kind_text grpc = codes "grpc"
kind_text chunk = codes "chunk"

-- The IDs and times of the message that the plugins see and of the one that is recorded.
pub record Stamp : Type 0 where
  pub shown_id : Text
  pub shown_at : ℕ
  pub id : Text
  pub at : ℕ

-- `activePipeline`, the stamps of the messages, the address, and whether the client takes a chunk
-- after those it has.
pub record Setting : Type 0 where
  pub pipeline : Option Registry
  pub stamps : ℕ → Stamp
  pub url : Text
  pub accepts : List Bytes → Bytes → Bool

-- The recorder, how many messages there have been, and the chunks that the client has.
pub record Relay : Type 0 where
  pub rec : Option Recorder
  pub emitted : ℕ
  pub chunks : List Bytes

pub data Failure : Type 0 where
  aborted write_failed read_failed : Failure

-- What a step leaves, and its error.
abbrev pub Step : Type 0
Step = Relay × Option Failure

-- `OnStreamMessage` where there is a pipeline.
unfoldable pub shown : Option Registry → StreamMessage → StreamMessage × Decision
unfolding on_stream_message
shown none m = (m, continue_decision)
shown (some p) m = on_stream_message p m

-- The wire bytes of a payload that a plugin has changed.
unfoldable pub rebuilt : StreamKind → Text → Bytes → Bytes
unfolding Sse.reserialize_sse Grpc.reframe_grpc
rebuilt sse event payload = Sse.reserialize_sse event payload
rebuilt grpc event payload = Grpc.reframe_grpc payload
rebuilt chunk event payload = payload

unfoldable pub message_of :
    Setting → Option Recorder → StreamKind → Text → Bytes → ℕ → Text → ℕ → StreamMessage
unfolding flow_id
message_of w rec kind event payload seq id at = record {
  id = id;
  flow_id = flow_id rec;
  conn_id = [];
  url = w.url;
  direction = codes "server->client";
  kind = kind_text kind;
  event_type = event;
  payload = payload;
  timestamp = at;
  seq = seq;
}

-- The rest of `emitStreamMessage` behind the plugins: the bytes to write, or nothing for an abort.
-- With `fixed`, as for a compressed gRPC frame, the bytes and the recorded payload are never a
-- plugin's.
unfoldable pub emit_shown :
    Setting
    → Bool
    → StreamKind
    → Text
    → Bytes
    → Bytes
    → Relay
    → ℕ × Option Recorder
    → StreamMessage × Decision
    → Relay × Option Bytes
unfolding message_of is_abort rebuilt add
emit_shown w fixed kind event payload raw s (seq, rec) (m, d) =
    let stamp = w.stamps s.emitted in
    let payload' = if fixed then payload else m.payload in
    let out = if text_eq payload' payload then raw else rebuilt kind event payload' in
    let recorded = message_of w rec kind event payload' seq stamp.id stamp.at in
    if is_abort d
    then (record s { rec = rec; emitted = suc s.emitted }, none)
    else (record s { rec = add recorded rec; emitted = suc s.emitted }, some out)

unfoldable pub emit_stream_message :
    Setting → Bool → StreamKind → Text → Bytes → Bytes → Relay → Relay × Option Bytes
unfolding next_seq message_of shown emit_shown
emit_stream_message w fixed kind event payload raw s =
    let stamp = w.stamps s.emitted in
    let (seq, rec) = next_seq s.rec in
    emit_shown w fixed kind event payload raw s (seq, rec)
      (shown w.pipeline (message_of w rec kind event payload seq stamp.shown_id stamp.shown_at))

-- `emitStreamMessageGRPC`.
unfoldable pub emit_stream_message_grpc : Setting → Grpc.GrpcFrame → Relay → Relay × Option Bytes
unfolding emit_stream_message
emit_stream_message_grpc w f s = emit_stream_message w f.compressed grpc [] f.payload f.raw s

-- `writeChunk`: an empty chunk is not written.
unfoldable pub write_chunk : Setting → Bytes → Relay → Step
write_chunk w p s =
    if is_nil p
    then (s, none)
    else if w.accepts s.chunks p
    then (record s { chunks = s.chunks ++ p ∷ [] }, none)
    else (s, some write_failed)

-- A message, emitted and written.
unfoldable pub write_emitted : Setting → Relay × Option Bytes → Step
unfolding write_chunk
write_emitted w (s, none) = (s, some aborted)
write_emitted w (s, some out) = write_chunk w out s

unfoldable pub pass_message : Setting → StreamKind → Text → Bytes → Bytes → Relay → Step
unfolding emit_stream_message write_emitted
pass_message w kind event payload raw s =
    write_emitted w (emit_stream_message w false kind event payload raw s)

-- A step, where there was no error before.
unfoldable pub unless_failed : Step → (Relay → Step) → Step
unless_failed (s, none) next = next s
unless_failed (s, some e) next = (s, some e)

unfoldable pub payload_bytes : Option Bytes → Bytes
payload_bytes none = []
payload_bytes (some p) = p

-- The loop of `dispatchChunk` over events.
unfoldable pub pass_events : Setting → List Sse.Event → Relay → Step
unfolding pass_message unless_failed payload_bytes
pass_events w [] s = (s, none)
pass_events w (e ∷ es) s =
    unless_failed (pass_message w sse e.event (payload_bytes e.payload) e.raw s) (pass_events w es)

-- The loop of `dispatchChunk` over frames.
unfoldable pub pass_frames : Setting → List Grpc.GrpcFrame → Relay → Step
unfolding emit_stream_message_grpc write_emitted unless_failed
pass_frames w [] s = (s, none)
pass_frames w (f ∷ fs) s =
    unless_failed (write_emitted w (emit_stream_message_grpc w f s)) (pass_frames w fs)

-- The two scanners of a response.
pub record Scanners : Type 0 where
  pub events : Bytes
  pub frames : Grpc.GrpcScanner

unfoldable pub new_scanners : Scanners
new_scanners = record { events = []; frames = record { buf = []; overflow = false } }

-- After the frames: a scanner that has given up is emptied into the client.
unfoldable pub pass_overflow : Setting → Scanners → Step → Scanners × Step
unfolding write_chunk Grpc.flush
pass_overflow w sc (s, some e) = (sc, (s, some e))
pass_overflow w sc (s, none) =
    let flushed = Grpc.flush sc.frames in
    if sc.frames.overflow
    then (record sc { frames = flushed.1 }, write_chunk w flushed.0 s)
    else (sc, (s, none))

unfoldable pub dispatch_chunk : Setting → StreamKind → Scanners → Bytes → Relay → Scanners × Step
unfolding Sse.push Grpc.push pass_events pass_frames pass_overflow pass_message
dispatch_chunk w sse sc p s =
    let pushed = Sse.push sc.events p in (record sc { events = pushed.1 }, pass_events w pushed.0 s)
dispatch_chunk w grpc sc p s =
    let pushed = Grpc.push sc.frames p in
    pass_overflow w (record sc { frames = pushed.1 }) (pass_frames w pushed.0 s)
dispatch_chunk w chunk sc p s = (sc, pass_message w chunk [] p p s)

unfoldable pub leftover : StreamKind → Scanners → Bytes
leftover sse sc = sc.events
leftover grpc sc = sc.frames.buf
leftover chunk sc = []

-- A read of the body: bytes, and the end or an error.
pub data Reading : Type 0 where
  more ended broken : Reading

-- The end of `pumpResponseStream`: the rest of the scanner, and the error of the last read.
unfoldable pub finish : Setting → StreamKind → Option Failure → Scanners × Step → Step
unfolding leftover write_chunk unless_failed
finish w kind e (sc, done) =
    unless_failed done (λ s. unless_failed (write_chunk w (leftover kind sc) s) (λ t. (t, e)))

-- A read with bytes is dispatched.
unfoldable pub dispatch_some : Setting → StreamKind → Scanners → Bytes → Relay → Scanners × Step
unfolding dispatch_chunk
dispatch_some w kind sc p s = if is_nil p then (sc, (s, none)) else dispatch_chunk w kind sc p s

-- `pumpResponseStream` over the reads that the body gives. Nothing is the result of a loop that
-- still waits for a read.
unfoldable pub pump_response_stream :
    Setting → StreamKind → List (Bytes × Reading) → Scanners × Step → Option Step
unfolding dispatch_some finish
pump_response_stream w kind [] (sc, (s, e)) = elim e [ none ↦ none | some f ↦ some (s, some f) ]
pump_response_stream w kind ((p, r) ∷ reads) (sc, (s, some f)) = some (s, some f)
pump_response_stream w kind ((p, more) ∷ reads) (sc, (s, none)) =
    pump_response_stream w kind reads (dispatch_some w kind sc p s)
pump_response_stream w kind ((p, ended) ∷ reads) (sc, (s, none)) =
    some (finish w kind none (dispatch_some w kind sc p s))
pump_response_stream w kind ((p, broken) ∷ reads) (sc, (s, none)) =
    some (finish w kind (some read_failed) (dispatch_some w kind sc p s))
