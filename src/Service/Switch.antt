-- ===== src/Service/Switch.antt =====
-- internal/service/service.go: what the recording switch stops, what is counted, and the copies of
-- bodies that go with the flows.
use sniffy.Common.{
  ◌≡◌, refl, ap, Bool, true, false, not, ◌&&◌, ◌||◌, List, [], ◌∷◌, Option, none, some, arith, All,
  is_nil, if◌then◌else◌, if_elim,
}
use sniffy.Common.Bytes.{Text, text_eq, text_eq_iff}
use sniffy.Common.Dict.{lookup, lookup-remove, lookup-insert}
use sniffy.Flow.{Flow, Response}
use sniffy.BodyCache.Store.{Cache, Disk, remove_copy, unlink}
use sniffy.BodyCache.Accounts.{IsSound, forget_locked-IsSound}
use sniffy.Service.Sessions.{Store, get, put, make_room}
use sniffy.Service.Statistics.{record_flow}
use sniffy.Service.Recording.{
  flow_started, flow_completed, flow_updated, put_counted, put_flow, emit, completed_event, Service,
  no_effect, record_flow_started, record_flow_updated, record_flow_completed, record_ws_session,
  record_stream_session, is_known, discard_body, evict_all, Report, started, updated, completed,
  ws_session, stream_session, report, report_all,
}

-- A report of a new flow, of the end of one that the store does not hold, or of a session.
abbrev pub IsNew : Service → Report → Type 0
IsNew s (started f) = Unit
IsNew s (updated f) = ⊥
IsNew s (completed f) = get s.sessions f.id ≡ none
IsNew s (ws_session w) = Unit
IsNew s (stream_session t) = Unit

report-off : (s : Service) (r : Report) → s.recording ≡ false → IsNew s r → report s r ≡ no_effect s
unfolding report record_flow_started record_flow_completed record_ws_session record_stream_session
report-off s (started f) e n = rw e
report-off s (updated f) e n = absurd n
report-off s (completed f) e n = rw (n, is_known, e)
report-off s (ws_session w) e n = rw e
report-off s (stream_session t) e n = rw e

report_all-new_off :
    (rs : List Report) (s : Service)
    → s.recording ≡ false
    → All (IsNew s) rs
    → report_all s rs ≡ no_effect s
unfolding report_all
report_all-new_off [] s e n = refl
report_all-new_off (r ∷ rs) s e n = rw (report-off s r e n.0, report_all-new_off rs s e n.1)

get-put : {V : Type 0} (s : Store V) (id : Text) (v : V) → get (put s id v).0 id ≡ some v
unfolding get put
get-put s id v =
    ground
      (arith, text_eq_iff id id, lookup-insert id id v (make_room s id (lookup id s.items)).0.items)

-- While recording is off, the reports of flows that begin, of flows that end and that the store does
-- not hold, and of sessions, change no store and no count, and nobody hears of them. The exception
-- is `RecordFlowUpdated`: it stores its flow all the same, and changes no count.
pub report_all-off :
    (rs : List Report) (s : Service)
    → s.recording ≡ false
    → All (IsNew s) rs
    → (report_all s rs ≡ no_effect s)
      × ((f : Flow)
          → (get (report (report_all s rs).state (updated f)).state.sessions f.id ≡ some f)
            × ((report (report_all s rs).state (updated f)).state.stats ≡ s.stats))
unfolding report record_flow_updated put_flow
report_all-off rs s e n =
    let off = report_all-new_off rs s e n in
    (off, λ f. (get-put (report_all s rs).state.sessions f.id f, ap (λ x. x.state.stats) off))

-- The copy of a body stands at a path.
abbrev pub copy_at : Text → Option Response → Bool
copy_at q none = false
copy_at q (some r) = not (is_nil q) && text_eq r.body_file q

abbrev pub any_copy_at : Text → List Flow → Bool
any_copy_at q [] = false
any_copy_at q (f ∷ fs) = copy_at q f.response || any_copy_at q fs

discard_body-lookup :
    (q : Text) (o : Option Response) (c : Cache) (disk : Disk)
    → ((discard_body o c disk).1.locked ≡ disk.locked)
      × (lookup q (discard_body o c disk).1.files
          ≡ (if copy_at q o && not (disk.locked q) then none else lookup q disk.files))
unfolding discard_body remove_copy unlink
discard_body-lookup q none c disk = (refl, refl)
discard_body-lookup q (some r) c disk = (
  ground arith,
  ground (arith, lookup-remove r.body_file q disk.files, text_eq_iff r.body_file q),
)

discard_body-IsSound :
    (o : Option Response) (c : Cache) (disk : Disk) → IsSound c → IsSound (discard_body o c disk).0
unfolding discard_body remove_copy
discard_body-IsSound none c disk i = i
discard_body-IsSound (some r) c disk i =
    if_elim (λ (out : Cache × Disk). IsSound out.0) (is_nil r.body_file) _ _ (λ _. i)
      (λ e. rw e (forget_locked-IsSound c r.body_file i))

-- When flows leave the store, the copies that their responses name by then are off the disk, except
-- the files that cannot be removed; no other file is touched, so a copy that is not committed yet
-- stays; and the books of the cache stay right.
pub evict_all-removes :
    (fs : List Flow) (c : Cache) (disk : Disk)
    → IsSound c
    → IsSound (evict_all fs c disk).0
      × ((q : Text)
          → lookup q (evict_all fs c disk).1.files
            ≡ (if any_copy_at q fs && not (disk.locked q) then none else lookup q disk.files))
unfolding evict_all
evict_all-removes [] c disk i = (i, λ q. refl)
evict_all-removes (f ∷ fs) c disk i =
    let out = discard_body f.response c disk in
    let (s, l) = evict_all-removes fs out.0 out.1 (discard_body-IsSound f.response c disk i) in
    (
      s,
      λ q.
          let d = discard_body-lookup q f.response c disk in
          ground (arith, l q, d.1, ap (λ g. g q) d.0),
    )

and_not-true : (a b : Bool) → b ≡ true → (a && not b) ≡ false
and_not-true a b e = ground arith

record_flow_completed-on :
    (s : Service) (g : Flow) (r : Response)
    → s.recording ≡ true
    → g.response ≡ some r
    → record_flow_completed s g ≡ put_counted s g (flow_completed r ∷ flow_updated g ∷ [])
unfolding record_flow_completed completed_event
record_flow_completed-on s g r on e =
    rw (and_not-true (not (is_known (get s.sessions g.id))) s.recording on, e)

-- While recording is on, a flow that is reported as started and then as completed is in the store
-- with what was reported last, is counted once, and is announced in this order.
pub report-lifecycle :
    (s : Service) (f g : Flow) (r : Response)
    → s.recording ≡ true
    → s.bus ≡ true
    → g.response ≡ some r
    → let e = report_all s (started f ∷ completed g ∷ []) in
      (get e.state.sessions g.id ≡ some g)
      × (e.state.stats ≡ record_flow s.stats g)
      × (e.events ≡ flow_started f ∷ flow_completed r ∷ flow_updated g ∷ [])
unfolding report_all report put_counted put_flow emit
report-lifecycle s f g r on bus e =
    let a : record_flow_started s f ≡ put_flow s f (flow_started f ∷ []) =
      unfold record_flow_started put_flow emit in rw on in
    let s' = (put_flow s f (flow_started f ∷ [])).state in
    let b = record_flow_completed-on s' g r on e in
    rw (a, b, bus) (get-put s'.sessions g.id g, refl, refl)
