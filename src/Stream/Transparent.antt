-- ===== src/Stream/Transparent.antt =====
-- capture/processors/http/streaming.go: what nobody changes arrives as it was sent.
use sniffy.Common.{
  ℕ, ◌≡◌, refl, sym, ap, ◌∙◌, Bool, true, false, List, [], ◌∷◌, ◌++◌, append_assoc, append-nil,
  Option, none, some, arith,
}
use sniffy.Common.Bytes.{Text, Bytes, text_eq_refl}
use sniffy.Flow.{StreamMessage, Decision}
use sniffy.Pipeline.{is_abort}
use sniffy.Stream.Recorder.{Recorder, next_seq}
use sniffy.Stream.Sse
use sniffy.Stream.Grpc
use sniffy.Stream.Relay.{
  StreamKind, sse, grpc, Setting, Relay, shown, message_of, emit_stream_message, emit_shown,
  emit_stream_message_grpc, write_chunk, write_emitted, pass_message, unless_failed, payload_bytes,
  pass_events, pass_frames, Step,
}

abbrev pub joined : List Bytes → Bytes
joined [] = []
joined (c ∷ cs) = c ++ joined cs

joined-append : (cs ds : List Bytes) → joined (cs ++ ds) ≡ joined cs ++ joined ds
joined-append [] ds = refl
joined-append (c ∷ cs) ds =
    ap (◌++◌ c) (joined-append cs ds) ∙ sym (append_assoc c (joined cs) (joined ds))

-- The client takes every chunk, and no plugin changes a payload or aborts.
pub record Quiet (w : Setting) : Type 0 where
  pub accepting : (cs : List Bytes) (c : Bytes) → w.accepts cs c ≡ true
  pub unchanged : (m : StreamMessage) → (shown w.pipeline m).0.payload ≡ m.payload
  pub goes_on : (m : StreamMessage) → is_abort (shown w.pipeline m).1 ≡ false

-- A step without an error that has given the client these bytes.
abbrev pub Passed : Relay → Bytes → Step → Type 0
Passed s p r = (r.1 ≡ none) × (joined r.0.chunks ≡ joined s.chunks ++ p)

module _ (w : Setting) (q : Quiet w) where
  emit_shown-raw :
      (fixed : Bool) (kind : StreamKind) (event : Text) (payload raw : Bytes) (s : Relay)
      (n : ℕ × Option Recorder) (h : StreamMessage × Decision)
      → h.0.payload ≡ payload
      → is_abort h.1 ≡ false
      → let r = emit_shown w fixed kind event payload raw s n h in
        (r.1 ≡ some raw) × (r.0.chunks ≡ s.chunks)
  unfolding emit_shown
  emit_shown-raw false kind event payload raw s n (m, d) e a =
      rw (a, e, text_eq_refl payload) (refl, refl)
  emit_shown-raw true kind event payload raw s n (m, d) e a =
      rw (a, text_eq_refl payload) (refl, refl)

  emit-raw :
      (fixed : Bool) (kind : StreamKind) (event : Text) (payload raw : Bytes) (s : Relay)
      → let r = emit_stream_message w fixed kind event payload raw s in
        (r.1 ≡ some raw) × (r.0.chunks ≡ s.chunks)
  unfolding emit_stream_message message_of
  emit-raw fixed kind event payload raw s =
      emit_shown-raw fixed kind event payload raw s (next_seq s.rec) (shown w.pipeline _)
        (q.unchanged _) (q.goes_on _)

  pub write_chunk-Passed : (p : Bytes) (s : Relay) → Passed s p (write_chunk w p s)
  unfolding write_chunk
  write_chunk-Passed [] s = (refl, sym (append-nil (joined s.chunks)))
  write_chunk-Passed (b ∷ p) s = rw (q.accepting s.chunks (b ∷ p)) (
    refl,
    joined-append s.chunks ((b ∷ p) ∷ []) ∙ ap (λ x. joined s.chunks ++ x) (append-nil (b ∷ p)),
  )

  write_emitted-Passed :
      (r : Relay × Option Bytes) (s : Relay) (raw : Bytes)
      → r.1 ≡ some raw
      → r.0.chunks ≡ s.chunks
      → Passed s raw (write_emitted w r)
  unfolding write_emitted
  write_emitted-Passed (t, none) s raw e c = absurd cc
  write_emitted-Passed (t, some out) s raw e c =
      let (no_error, given) = write_chunk-Passed out t in
      let o : out ≡ raw = ground (arith, e) in (no_error, given ∙ rw (c, o))

  -- Two steps that pass on their bytes.
  pub unless_failed-Passed :
      (s : Relay) (p p' : Bytes) (r : Step) (next : Relay → Step)
      → Passed s p r
      → ((t : Relay) → Passed t p' (next t))
      → Passed s (p ++ p') (unless_failed r next)
  unfolding unless_failed
  unless_failed-Passed s p p' (t, some f) next (e, c) h = absurd cc
  unless_failed-Passed s p p' (t, none) next (e, c) h =
      ((h t).0, (h t).1 ∙ rw (c, append_assoc (joined s.chunks) p p'))

  pub pass_message-Passed :
      (kind : StreamKind) (event : Text) (payload raw : Bytes) (s : Relay)
      → Passed s raw (pass_message w kind event payload raw s)
  unfolding pass_message
  pass_message-Passed kind event payload raw s =
      let (e, c) = emit-raw false kind event payload raw s in write_emitted-Passed _ s raw e c

  pub pass_events-Passed :
      (es : List Sse.Event) (s : Relay) → Passed s (Sse.raw_bytes es) (pass_events w es s)
  unfolding pass_events
  pass_events-Passed [] s = (refl, sym (append-nil (joined s.chunks)))
  pass_events-Passed (e ∷ es) s =
      unless_failed-Passed s e.raw (Sse.raw_bytes es) _ (pass_events w es)
        (pass_message-Passed sse e.event (payload_bytes e.payload) e.raw s) (pass_events-Passed es)

  pub pass_frames-Passed :
      (fs : List Grpc.GrpcFrame) (s : Relay) → Passed s (Grpc.raw_bytes fs) (pass_frames w fs s)
  unfolding pass_frames
  pass_frames-Passed [] s = (refl, sym (append-nil (joined s.chunks)))
  pass_frames-Passed (f ∷ fs) s =
      let step : Passed s f.raw (write_emitted w (emit_stream_message_grpc w f s)) =
        unfold emit_stream_message_grpc in
        let (e, c) = emit-raw f.compressed grpc [] f.payload f.raw s in
        write_emitted-Passed _ s f.raw e c in
      unless_failed-Passed s f.raw (Grpc.raw_bytes fs) _ (pass_frames w fs) step
        (pass_frames-Passed fs)
