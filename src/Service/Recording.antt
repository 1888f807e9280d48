-- ===== src/Service/Recording.antt =====
-- internal/service/service.go: the stores behind the recording switch, the events, and the copies of
-- bodies on the disk. An event carries the entry: what internal/service/view.go makes of it is left
-- out. The callback of `SetBodyCache` gets the evicted flows.
use sniffy.Common.{
  Bool, true, false, not, ◌&&◌, List, [], ◌∷◌, ◌++◌, Option, none, some, is_nil, if◌then◌else◌,
}
use sniffy.Common.Int.{ℤ}
use sniffy.Common.Bytes.{Text}
use sniffy.Flow.{Flow, Response, WsSession, StreamSession}
use sniffy.BodyCache.Store.{Cache, Disk, remove_copy}
use sniffy.Service.Sessions.{Store, new_store, put, get, delete, clear, set_cap}
use sniffy.Service.Timelines.{new_ws_store, new_stream_store, put_ws, put_stream}
use sniffy.Service.Statistics.{Collector, new_collector, record_flow}

-- `core.EventType` with its payload.
pub data Emitted : Type 0 where
  flow_started flow_updated : Flow → Emitted
  flow_completed : Response → Emitted
  ws_message : WsSession → Emitted
  stream_message : StreamSession → Emitted

-- `Service`: the parts that the traffic changes. `bus` tells whether there is one.
pub record Service : Type 0 where
  pub sessions : Store Flow
  pub ws : Store WsSession
  pub stream : Store StreamSession
  pub stats : Collector
  pub recording : Bool
  pub bus : Bool

-- What a call leaves: the state, the events in their order, and the flows that left the store.
pub record Effect : Type 0 where
  pub state : Service
  pub events : List Emitted
  pub evicted : List Flow

-- `New`, for the capacity and the switch of the configuration.
unfoldable pub new_service : ℤ → Bool → Bool → Service
unfolding new_store new_ws_store new_stream_store new_collector
new_service max_flows recording bus = record {
  sessions = new_store 5000 max_flows;
  ws = new_ws_store (ℤ.pos 0);
  stream = new_stream_store (ℤ.pos 0);
  stats = new_collector;
  recording = recording;
  bus = bus;
}

unfoldable pub emit : Service → List Emitted → List Emitted
emit s events = if s.bus then events else []

abbrev pub no_effect : Service → Effect
no_effect s = record { state = s; events = []; evicted = [] }

-- `sessions.put`, and the events that follow.
unfoldable pub put_flow : Service → Flow → List Emitted → Effect
unfolding put emit
put_flow s f events =
    let out = put s.sessions f.id f in
    record { state = record s { sessions = out.0 }; events = emit s events; evicted = out.1 }

unfoldable pub record_flow_started : Service → Flow → Effect
unfolding put_flow
record_flow_started s f =
    if not s.recording then no_effect s else put_flow s f (flow_started f ∷ [])

-- `RecordFlowUpdated`.
unfoldable pub record_flow_updated : Service → Flow → Effect
unfolding put_flow
record_flow_updated s f = put_flow s f (flow_updated f ∷ [])

unfoldable pub completed_event : Option Response → List Emitted
completed_event none = []
completed_event (some r) = flow_completed r ∷ []

unfoldable pub is_known : Option Flow → Bool
is_known none = false
is_known (some f) = true

-- `put` and `stats.record`.
unfoldable pub put_counted : Service → Flow → List Emitted → Effect
unfolding put_flow record_flow
put_counted s f events =
    let e = put_flow s f events in
    record e { state = record e.state { stats = record_flow s.stats f } }

unfoldable pub record_flow_completed : Service → Flow → Effect
unfolding get is_known completed_event put_counted
record_flow_completed s f =
    if not (is_known (get s.sessions f.id)) && not s.recording
    then no_effect s
    else put_counted s f (completed_event f.response ++ flow_updated f ∷ [])

-- `ImportFlowStarted` and `ImportFlowCompleted`, of flows that were sent again.
unfoldable pub import_flow_started : Service → Flow → Effect
unfolding put_flow
import_flow_started s f = put_flow s f (flow_started f ∷ [])

unfoldable pub import_flow_completed : Service → Flow → Effect
unfolding put_counted
import_flow_completed s f = put_counted s f (flow_updated f ∷ [])

unfoldable pub record_ws_session : Service → WsSession → Effect
unfolding put_ws emit
record_ws_session s w = if not s.recording then no_effect s else record {
  state = record s { ws = put_ws s.ws w };
  events = emit s (ws_message w ∷ []);
  evicted = [];
}

unfoldable pub record_stream_session : Service → StreamSession → Effect
unfolding put_stream emit
record_stream_session s t = if not s.recording then no_effect s else record {
  state = record s { stream = put_stream s.stream t };
  events = emit s (stream_message t ∷ []);
  evicted = [];
}

-- `StartRecording` and `StopRecording`.
unfoldable pub set_recording : Service → Bool → Effect
set_recording s on = no_effect (record s { recording = on })

-- `DeleteSession` and `ClearSessions`, and `setCap` from `UpdateConfig`.
unfoldable pub with_sessions : Service → Store Flow × List Flow → Effect
with_sessions s out = record { state = record s { sessions = out.0 }; events = []; evicted = out.1 }

unfoldable pub delete_session : Service → Text → Effect
unfolding with_sessions delete
delete_session s id = with_sessions s (delete s.sessions id)

unfoldable pub clear_sessions : Service → Effect
unfolding with_sessions clear
clear_sessions s = with_sessions s (clear s.sessions)

unfoldable pub limit_flows : Service → ℤ → Effect
unfolding with_sessions set_cap
limit_flows s n = with_sessions s (set_cap s.sessions n)

-- The callback of `SetBodyCache`.
unfoldable pub discard_body : Option Response → Cache → Disk → Cache × Disk
unfolding remove_copy
discard_body none c disk = (c, disk)
discard_body (some r) c disk =
    if is_nil r.body_file then (c, disk) else remove_copy c r.body_file disk

-- `evictAll` with it.
unfoldable pub evict_all : List Flow → Cache → Disk → Cache × Disk
unfolding discard_body
evict_all [] c disk = (c, disk)
evict_all (f ∷ fs) c disk = let out = discard_body f.response c disk in evict_all fs out.0 out.1

-- What the proxy reports of the traffic.
pub data Report : Type 0 where
  started updated completed : Flow → Report
  ws_session : WsSession → Report
  stream_session : StreamSession → Report

unfoldable pub report : Service → Report → Effect
unfolding record_flow_started record_flow_updated record_flow_completed record_ws_session
    record_stream_session
report s (started f) = record_flow_started s f
report s (updated f) = record_flow_updated s f
report s (completed f) = record_flow_completed s f
report s (ws_session w) = record_ws_session s w
report s (stream_session t) = record_stream_session s t

unfoldable pub report_all : Service → List Report → Effect
unfolding report
report_all s [] = no_effect s
report_all s (r ∷ rs) =
    let e = report s r in
    let rest = report_all e.state rs in
    record rest { events = e.events ++ rest.events; evicted = e.evicted ++ rest.evicted }
