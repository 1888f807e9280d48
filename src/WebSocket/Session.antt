-- ===== src/WebSocket/Session.antt =====
-- capture/processors/http/websocket/pipeline.go: the record of a session, which both directions of
-- the relay share under a lock, and what the sink receives. A method updates the session and takes a
-- snapshot under the lock; it gives the snapshot to the sink behind the lock, which is a step of its
-- own, so that snapshots can overtake each other. IDs and times are arguments. A recorder that is
-- nil, because no sink is set, is `none`.
use sniffy.Common.{
  ℕ, zero, suc, ◌+◌, ◌-◌, Bool, true, false, List, [], ◌∷◌, ◌++◌, Option, none, some, ltb, length,
  drop, if◌then◌else◌,
}
use sniffy.Common.Bytes.{Text, Bytes}
use sniffy.Flow.{ProcessInfo, WsMessage, WsSession, is_open, is_closed}

-- `wsRecorder`, the snapshots on their way to the sink, and those that it has received.
pub record Recorder : Type 0 where
  pub session : WsSession
  pub on_the_way : List WsSession
  pub pushed : List WsSession

abbrev pub max_messages : ℕ
max_messages = 500

-- The session as a method leaves it, and the snapshot of it that the method takes.
unfoldable pub with_snapshot : WsSession → Recorder → Recorder
with_snapshot s r = record r { session = s; on_the_way = s ∷ r.on_the_way }

-- `push`, which takes a snapshot only.
unfoldable pub push : Recorder → Recorder
unfolding with_snapshot
push r = with_snapshot r.session r

-- A list without the entry at a place, and the entry.
unfoldable pub taken_out : ℕ → List WsSession → Option (WsSession × List WsSession)
taken_out n [] = none
taken_out zero (s ∷ ss) = some (s, ss)
taken_out (suc n) (s ∷ ss) = elim (taken_out n ss) [
  | none ↦ none
  | some (t, rest) ↦ some (t, s ∷ rest)
]

unfoldable pub received : Recorder → Option (WsSession × List WsSession) → Recorder
received r none = r
received r (some (s, rest)) = record r { on_the_way = rest; pushed = r.pushed ++ s ∷ [] }

-- `wsSink.RecordWSSession` of one of the snapshots that are on their way.
unfoldable pub give : ℕ → Recorder → Recorder
unfolding taken_out received
give n r = received r (taken_out n r.on_the_way)

-- `newWSRecorder`; the flag tells whether a sink is set.
unfoldable pub new_recorder : Bool → Text → Text → ℕ → Option Recorder
unfolding push
new_recorder false id url now = none
new_recorder true id url now = some (
    push (record {
      session = record {
        id = id;
        url = url;
        status = is_open;
        start_time = now;
        end_time = none;
        message_count = 0;
        total_size = 0;
        messages = [];
        process = none;
      };
      on_the_way = [];
      pushed = [];
    }))

unfoldable pub recorder_id : Option Recorder → Text
recorder_id none = []
recorder_id (some r) = r.session.id

-- The newest messages, at most as many as are kept.
unfoldable pub keep_newest : List WsMessage → List WsMessage
keep_newest ms = if ltb max_messages (length ms) then drop (length ms - max_messages) ms else ms

-- `record` with the ID and time of the new message.
unfoldable pub record_message : Text → ℕ → Text → Text → Bytes → Recorder → Recorder
unfolding with_snapshot keep_newest
record_message id now direction kind bytes r =
    with_snapshot
      (record r.session {
        message_count = r.session.message_count + 1;
        total_size = r.session.total_size + length bytes;
        messages = keep_newest (
            r.session.messages
            ++ record {
              id = id;
              flow_id = r.session.id;
              conn_id = [];
              url = r.session.url;
              direction = direction;
              kind = kind;
              payload = bytes;
              timestamp = now;
            }
              ∷ []);
      })
      r

unfoldable pub set_process : Option ProcessInfo → Recorder → Recorder
unfolding with_snapshot
set_process none r = r
set_process (some p) r = with_snapshot (record r.session { process = some p }) r

unfoldable pub close : ℕ → Recorder → Recorder
unfolding with_snapshot
close now r = with_snapshot (record r.session { end_time = some now; status = is_closed }) r

-- The calls that the two directions of the relay, and the process resolver, make in some order, and
-- the arrival of a snapshot, in any order too.
pub data Call : Type 0 where
  records : Text → ℕ → Text → Text → Bytes → Call
  sets_process : Option ProcessInfo → Call
  closes : ℕ → Call
  gives : ℕ → Call

unfoldable pub step : Recorder → Call → Recorder
unfolding record_message set_process close give
step r (records id now direction kind bytes) = record_message id now direction kind bytes r
step r (sets_process p) = set_process p r
step r (closes now) = close now r
step r (gives n) = give n r

unfoldable pub run : Recorder → List Call → Recorder
unfolding step
run r [] = r
run r (c ∷ cs) = run (step r c) cs
