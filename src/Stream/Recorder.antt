-- ===== src/Stream/Recorder.antt =====
-- capture/processors/http/streaming.go: `streamRecorder`. IDs and times are arguments; a
-- recorder that is nil, because no sink is set, is `none`. What a method does under its lock is one
-- step. It gives the snapshot that it takes there to the sink behind the lock: `snapshots` has them in
-- the order in which they are taken, and when each one reaches the sink is left open.
use sniffy.Common.{
  ℕ, suc, ◌+◌, ◌-◌, Bool, true, false, List, [], ◌∷◌, ◌++◌, Option, none, some, ltb, length, drop,
  if◌then◌else◌,
}
use sniffy.Common.Int.{ℤ}
use sniffy.Common.Bytes.{Text}
use sniffy.Flow.{Flow, Request, StreamMessage, StreamSession, is_open, is_closed}

pub record Recorder : Type 0 where
  pub session : StreamSession
  pub seq : ℕ
  pub snapshots : List StreamSession

unfoldable pub max_stream_messages : ℕ
max_stream_messages = 500

-- The session as a method leaves it, and the snapshot of it that the method takes.
unfoldable pub snapshot_taken : StreamSession → Recorder → Recorder
snapshot_taken s r = record r { session = s; snapshots = r.snapshots ++ s ∷ [] }

unfoldable pub url_and_method : Option Request → Text × Text
url_and_method none = ([], [])
url_and_method (some q) = (q.url, q.method)

-- `newStreamRecorder`; the flag tells whether a sink is set.
unfoldable pub new_stream_recorder : Bool → Flow → Text → ℕ → Option Recorder
unfolding url_and_method
new_stream_recorder false f kind now = none
new_stream_recorder true f kind now =
    let named = url_and_method f.request in
    let s : StreamSession = record {
      id = f.id;
      url = named.0;
      kind = kind;
      method = named.1;
      status_code = ℤ.pos 0;
      status = is_open;
      start_time = now;
      end_time = none;
      message_count = 0;
      total_size = 0;
      messages = [];
      process = f.process;
    } in
    some (record { session = s; seq = 0; snapshots = s ∷ [] })

unfoldable pub flow_id : Option Recorder → Text
flow_id none = []
flow_id (some r) = r.session.id

unfoldable pub next_seq : Option Recorder → ℕ × Option Recorder
next_seq none = (0, none)
next_seq (some r) = (r.seq, some (record r { seq = suc r.seq }))

unfoldable pub keep_newest : List StreamMessage → List StreamMessage
unfolding max_stream_messages
keep_newest ms =
    if ltb max_stream_messages (length ms) then drop (length ms - max_stream_messages) ms else ms

unfoldable pub add : StreamMessage → Option Recorder → Option Recorder
unfolding keep_newest snapshot_taken
add m none = none
add m (some r) =
    let s = r.session in
    some (
      snapshot_taken
        (record s {
          message_count = suc s.message_count;
          total_size = s.total_size + length m.payload;
          messages = keep_newest (s.messages ++ m ∷ []);
        })
        r)

unfoldable pub set_status : ℤ → Option Recorder → Option Recorder
unfolding snapshot_taken
set_status code none = none
set_status code (some r) = some (snapshot_taken (record r.session { status_code = code }) r)

unfoldable pub close : ℕ → Option Recorder → Option Recorder
unfolding snapshot_taken
close now none = none
close now (some r) =
    some (snapshot_taken (record r.session { end_time = some now; status = is_closed }) r)
