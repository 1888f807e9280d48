-- ===== src/Pipeline/Run.antt =====
-- internal/pipeline/pipeline.go: the loops that run the hooks of a stage, and the pause that may
-- follow. A hook that panics counts as `Continue`, with the edits that it made before.
use sniffy.Common.{
  Bool, true, false, not, ◌&&◌, ◌||◌, List, [], ◌∷◌, Option, none, some, if◌then◌else◌,
}
use sniffy.Common.Int.{pos}
use sniffy.Common.Bytes.{Text, codes}
use sniffy.Flow.{
  Flow, Request, Phase, request_phase, response_phase, Decision, mock, abort, breakpoint,
  continue_decision, abort_decision, merge, WsMessage, StreamMessage,
}
use sniffy.Breakpoint.{should_break_for}
use sniffy.Breakpoint.Pause.{World, Wake, enter, settle}
use sniffy.Pipeline.Hooks.{
  Called, returned, panicked, Hook, Registry, snapshot_req, snapshot_resp, snapshot_ws,
  snapshot_stream,
}

-- `safeReq` and `safeResp`: the flow as it is left, and the decision.
unfoldable pub safe : {A : Type 0} → Called A → A × Decision
safe (returned a d) = (a, d)
safe (panicked a) = (a, continue_decision)

unfoldable pub is_breakpoint : Decision → Bool
is_breakpoint d = elim d.kind [ breakpoint ↦ true | _ ↦ false ]

-- Whether the loop of a stage ends at a merged decision.
pub data Stage : Type 0 where
  on_request on_response : Stage

unfoldable pub ends : Stage → Decision → Bool
ends on_request d = elim d.kind [ abort ↦ true | mock ↦ true | _ ↦ false ]
ends on_response d = elim d.kind [ abort ↦ true | _ ↦ false ]

-- What the loop carries: the flow, the merged decision, and whether a hook asked for a pause.
pub record Progress : Type 0 where
  pub flow : Flow
  pub decision : Decision
  pub pause : Bool

-- What a call of one hook adds.
unfoldable pub absorb : Progress → Flow × Decision → Progress
unfolding is_breakpoint
absorb s (f, d) =
    if is_breakpoint d
    then record { flow = f; decision = s.decision; pause = true }
    else record { flow = f; decision = merge s.decision d; pause = s.pause }

-- The loop. The test for the end is made only after a decision was merged.
unfoldable pub run : Stage → Text → List (Hook Flow) → Progress → Progress
unfolding safe absorb ends is_breakpoint
run stage url [] s = s
run stage url (h ∷ hs) s =
    let called = safe (h.call s.flow) in
    let s' = absorb s called in
    let stop = not (is_breakpoint called.1) && ends stage s'.decision in
    let skipped = run stage url hs s in
    let onward = run stage url hs s' in
    if not h.enabled || not (h.matches url) then skipped else if stop then s' else onward

unfoldable pub url_of : Option Request → Text
url_of none = []
url_of (some r) = r.url

unfoldable pub is_abort : Decision → Bool
is_abort d = elim d.kind [ abort ↦ true | _ ↦ false ]

unfoldable pub paused_decision : Bool → Decision → Decision
paused_decision true d = abort_decision (pos 0) (codes "aborted at breakpoint")
paused_decision false d = d

-- `Pause` in one piece, where `meanwhile` stands for what the other goroutines do to the world while
-- it waits, and `wake` for what ends the wait.
unfoldable pub pause : World → (World → World) → Wake → Flow → Phase → World × Flow × Bool
pause w meanwhile wake f phase = elim (enter w f phase).1 [
  | none ↦ ((enter w f phase).0, f, false)
  | some g ↦ settle (meanwhile (enter w f phase).0) g wake
]

-- `maybePause`: the world, the flow and the final decision.
unfoldable pub maybe_pause :
    World → (World → World) → Wake → Flow → Phase → Text → Decision → Bool → World × Flow × Decision
unfolding is_abort paused_decision
maybe_pause w meanwhile wake f phase url d asked =
    let looked = should_break_for w.manager url phase in
    let w' = record w { manager = looked.0 } in
    let stopped = pause w meanwhile wake f phase in
    let stopped' = pause w' meanwhile wake f phase in
    if is_abort d
    then (w, f, d)
    else if asked
    then (stopped.0, stopped.1, paused_decision stopped.2 d)
    else if not looked.1
    then (w', f, d)
    else (stopped'.0, stopped'.1, paused_decision stopped'.2 d)

unfoldable pub start : Flow → Progress
start f = record { flow = f; decision = continue_decision; pause = false }

-- `OnRequest` and `OnResponse`.
unfoldable pub handle_request :
    Registry → World → (World → World) → Wake → Flow → World × Flow × Decision
unfolding url_of start run
handle_request p w meanwhile wake f =
    let url = url_of f.request in
    let s = run on_request url (snapshot_req p) (start f) in
    maybe_pause w meanwhile wake s.flow request_phase url s.decision s.pause

unfoldable pub handle_response :
    Registry → World → (World → World) → Wake → Flow → World × Flow × Decision
unfolding url_of start run
handle_response p w meanwhile wake f =
    let url = url_of f.request in
    let s = run on_response url (snapshot_resp p) (start f) in
    maybe_pause w meanwhile wake s.flow response_phase url s.decision s.pause

-- The loop of `OnWebSocketMessage` and `OnStreamMessage`: a panic leaves the decision as it is.
unfoldable pub merged : {A : Type 0} → Decision → Called A → A × Decision
merged d (returned m e) = (m, merge d e)
merged d (panicked m) = (m, d)

unfoldable pub run_messages :
    {A : Type 0} → (A → Text) → List (Hook A) → A → Decision → A × Decision
unfolding merged is_abort
run_messages url [] m d = (m, d)
run_messages url (h ∷ hs) m d =
    let called = merged d (h.call m) in
    let skipped = run_messages url hs m d in
    let onward = run_messages url hs called.0 called.1 in
    if not h.enabled || not (h.matches (url m))
    then skipped
    else if is_abort called.1
    then called
    else onward

unfoldable pub on_web_socket_message : Registry → WsMessage → WsMessage × Decision
unfolding run_messages
on_web_socket_message p m = run_messages (λ x. x.url) (snapshot_ws p) m continue_decision

unfoldable pub on_stream_message : Registry → StreamMessage → StreamMessage × Decision
unfolding run_messages
on_stream_message p m = run_messages (λ x. x.url) (snapshot_stream p) m continue_decision
