-- ===== src/Stream/Pumping.antt =====
-- capture/processors/http/streaming.go: a relay that nobody interferes with ends with its body, and
-- the client has all of it.
use sniffy.Common.{
  Bool, true, false, ◌≡◌, refl, sym, ap, ◌∙◌, inl, inr, List, [], ◌∷◌, ◌++◌, append_assoc,
  append-nil, map, Option, none, some, Bool-cases,
}
use sniffy.Common.Bytes.{Bytes}
use sniffy.Stream.Sse
use sniffy.Stream.Grpc
use sniffy.Stream.Relay.{
  StreamKind, sse, grpc, chunk, Setting, Relay, Failure, read_failed, write_chunk, unless_failed,
  Scanners, new_scanners, pass_overflow, dispatch_chunk, leftover, Reading, more, ended, broken,
  finish, dispatch_some, pump_response_stream, Step,
}
use sniffy.Stream.Transparent.{
  joined, Quiet, Passed, write_chunk-Passed, pass_message-Passed, pass_events-Passed,
  pass_frames-Passed,
}

-- There was no error, and what the client has and what the scanner holds are the bytes so far.
abbrev Holds : StreamKind → Bytes → Scanners × Step → Type 0
Holds kind p (sc, r) = (r.1 ≡ none) × (joined r.0.chunks ++ leftover kind sc ≡ p)

-- The last read, and the error that it stands for.
abbrev pub last_read : Bool → Reading
last_read true = ended
last_read false = broken

abbrev pub error_of : Bool → Option Failure
error_of true = none
error_of false = some read_failed

module _ (w : Setting) (q : Quiet w) where
  shift : (a b c d e p : Bytes) → b ++ c ≡ d ++ p → a ++ d ≡ e → (a ++ b) ++ c ≡ e ++ p
  shift a b c d e p h k =
      append_assoc a b c ∙ ap (◌++◌ a) h ∙ sym (append_assoc a d p) ∙ ap (λ x. x ++ p) k

  pass_overflow-Holds :
      (sc : Scanners) (s : Relay) (r : Step) (b e p : Bytes)
      → Passed s b r
      → (joined s.chunks ++ b) ++ sc.frames.buf ≡ e
      → Holds grpc e (pass_overflow w sc r)
  unfolding pass_overflow leftover
  pass_overflow-Holds sc s (t, some f) b e p (n, c) h = absurd cc
  pass_overflow-Holds sc s (t, none) b e p (n, c) h = elim (Bool-cases sc.frames.overflow) [
    | inl o ↦
        let (n', c') = write_chunk-Passed w q sc.frames.buf t in
        unfold Grpc.flush in rw o (n', append-nil _ ∙ c' ∙ rw (c, h))
    | inr o ↦ rw o (refl, rw (c, h))
  ]

  dispatch_chunk-Holds :
      (kind : StreamKind) (sc : Scanners) (e p : Bytes) (s : Relay)
      → joined s.chunks ++ leftover kind sc ≡ e
      → Holds kind (e ++ p) (dispatch_chunk w kind sc p s)
  unfolding dispatch_chunk leftover
  dispatch_chunk-Holds sse sc e p s h =
      let pushed = Sse.push sc.events p in
      let (n, c) = pass_events-Passed w q pushed.0 s in
      (
        n,
        ap (λ x. x ++ pushed.1) c
            ∙ shift (joined s.chunks) (Sse.raw_bytes pushed.0) pushed.1 sc.events e p
                (Sse.push-raw_bytes sc.events p) h,
      )
  dispatch_chunk-Holds grpc sc e p s h =
      let pushed = Grpc.push sc.frames p in
      pass_overflow-Holds (record sc { frames = pushed.1 }) s _ (Grpc.raw_bytes pushed.0) (e ++ p) p
        (pass_frames-Passed w q pushed.0 s)
        (shift (joined s.chunks) (Grpc.raw_bytes pushed.0) pushed.1.buf sc.frames.buf e p
          (Grpc.push-raw_frames sc.frames p) h)
  dispatch_chunk-Holds chunk sc e p s h =
      let (n, c) = pass_message-Passed w q chunk [] p p s in
      (n, append-nil _ ∙ c ∙ ap (λ x. x ++ p) (sym (append-nil (joined s.chunks)) ∙ h))

  dispatch_some-Holds :
      (kind : StreamKind) (sc : Scanners) (e p : Bytes) (s : Relay)
      → joined s.chunks ++ leftover kind sc ≡ e
      → Holds kind (e ++ p) (dispatch_some w kind sc p s)
  unfolding dispatch_some
  dispatch_some-Holds kind sc e [] s h = (refl, h ∙ sym (append-nil e))
  dispatch_some-Holds kind sc e (b ∷ p) s h = dispatch_chunk-Holds kind sc e (b ∷ p) s h

  then_error :
      (r : Step) (o : Option Failure) → r.1 ≡ none → unless_failed r (λ t. (t, o)) ≡ (r.0, o)
  unfolding unless_failed
  then_error (t, none) o n = refl
  then_error (t, some f) o n = absurd cc

  finish-joined :
      (kind : StreamKind) (o : Option Failure) (e : Bytes) (r : Scanners × Step)
      → Holds kind e r
      → let out = finish w kind o r in (out.1 ≡ o) × (joined out.0.chunks ≡ e)
  unfolding finish unless_failed
  finish-joined kind o e (sc, (s, some f)) (n, h) = absurd cc
  finish-joined kind o e (sc, (s, none)) (n, h) =
      let (m, c) = write_chunk-Passed w q (leftover kind sc) s in
      rw (then_error (write_chunk w (leftover kind sc) s) o m) (refl, c ∙ h)

  pump-last :
      (kind : StreamKind) (eof : Bool) (p : Bytes) (rest : List (Bytes × Reading)) (sc : Scanners)
      (s : Relay)
      → pump_response_stream w kind ((p, last_read eof) ∷ rest) (sc, (s, none))
        ≡ some (finish w kind (error_of eof) (dispatch_some w kind sc p s))
  unfolding pump_response_stream
  pump-last kind true p rest sc s = refl
  pump-last kind false p rest sc s = refl

  pump-Holds :
      (kind : StreamKind) (eof : Bool) (ps : List Bytes) (p e : Bytes)
      (rest : List (Bytes × Reading)) (r : Scanners × Step)
      → Holds kind e r
      → (t : Relay) × (pump_response_stream w kind
            (map (λ b. (b, more)) ps ++ (p, last_read eof) ∷ rest)
            r
          ≡ some (t, error_of eof))
        × (joined t.chunks ≡ e ++ (joined ps ++ p))
  unfolding pump_response_stream
  pump-Holds kind eof ps p e rest (sc, (s, some f)) (n, h) = absurd cc
  pump-Holds kind eof [] p e rest (sc, (s, none)) (n, h) =
      let d = dispatch_some-Holds kind sc e p s h in
      let (err, all) = finish-joined kind (error_of eof) (e ++ p) (dispatch_some w kind sc p s) d in
      (
        (finish w kind (error_of eof) (dispatch_some w kind sc p s)).0,
        pump-last kind eof p rest sc s
            ∙ ap (λ e. some ((finish w kind (error_of eof) (dispatch_some w kind sc p s)).0, e))
                err,
        all,
      )
  pump-Holds kind eof (b ∷ ps) p e rest (sc, (s, none)) (n, h) =
      let d = dispatch_some-Holds kind sc e b s h in
      let (t, res, all) = pump-Holds kind eof ps p (e ++ b) rest (dispatch_some w kind sc b s) d in
      (
        t,
        res,
        all ∙ append_assoc e b (joined ps ++ p) ∙ ap (◌++◌ e) (sym (append_assoc b (joined ps) p)),
      )

nothing_yet :
    (kind : StreamKind) (s : Relay)
    → s.chunks ≡ []
    → joined s.chunks ++ leftover kind new_scanners ≡ []
unfolding leftover new_scanners
nothing_yet sse s h = rw h
nothing_yet grpc s h = rw h
nothing_yet chunk s h = rw h

-- Where no plugin changes a payload or aborts and the client takes every chunk, the relay of a
-- response of any kind returns as soon as the body ends or breaks, with exactly that error, and the
-- client then has exactly the bytes of the body, however the body was cut into reads.
pub pump_response_stream_complete :
    (w : Setting)
    → Quiet w
    → (kind : StreamKind) (eof : Bool) (ps : List Bytes) (p : Bytes) (rest : List (Bytes × Reading))
      (s : Relay)
    → s.chunks ≡ []
    → (t : Relay) × (pump_response_stream w kind
          (map (λ b. (b, more)) ps ++ (p, last_read eof) ∷ rest)
          (new_scanners, (s, none))
        ≡ some (t, error_of eof))
      × (joined t.chunks ≡ joined ps ++ p)
pump_response_stream_complete w q kind eof ps p rest s h =
    pump-Holds w q kind eof ps p [] rest (new_scanners, (s, none)) (refl, nothing_yet kind s h)
