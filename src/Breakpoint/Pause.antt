-- ===== src/Breakpoint/Pause.antt =====
-- internal/pipeline/breakpoint.go: `Pause`, `Resume`, `Abort`, `List`. A call of `Pause` is two
-- steps, `enter` and `settle`, with any steps of other goroutines between them. A channel of
-- capacity one is a number, and the world holds what each channel holds. `give_up` is the other way
-- out, by a panic in `emit`. An answer is two steps, `published` and `offer`.
use sniffy.Common.{
  ℕ, ◌+◌, Bool, true, false, List, [], ◌∷◌, ◌++◌, map, Option, none, some, leb, length, ◌==◌,
  if◌then◌else◌,
}
use sniffy.Common.Bytes.{Text, codes}
use sniffy.Common.Dict.{lookup, insert, remove}
use sniffy.Flow.{Flow, Phase, MetaValue, flag, Metadata, paused_at_breakpoint, FlowState}
use sniffy.Flow.Copy.{clone}
use sniffy.Breakpoint.State.{Manager, Paused, ResumeMsg, resume_continue, resume_abort}

-- What is emitted to the UI.
pub data Event : Type 0 where
  breakpoint_hit breakpoint_resolved : Flow → Event

-- A goroutine between the two steps of `Pause`: its locals `f`, `prevState`, `phase`, `p.resume`.
pub record Waiting : Type 0 where
  pub flow : Flow
  pub prev_state : FlowState
  pub phase : Phase
  pub resume : ℕ

pub record World : Type 0 where
  pub manager : Manager
  pub channel : ℕ → Option ResumeMsg
  pub next_channel : ℕ
  pub emitted : List Event

abbrev pub store : (ℕ → Option ResumeMsg) → ℕ → Option ResumeMsg → ℕ → Option ResumeMsg
store c n v m = if n == m then v else c m

-- A snapshot that says in which phase the flow stopped.
unfoldable pub snapshot : Flow → Phase → Flow
snapshot f phase = record (clone f) { paused_at = some phase }

-- `Pause` up to its `select`; `none` is the early return at the limit.
unfoldable pub enter : World → Flow → Phase → World × Option Waiting
unfolding snapshot
enter w f phase = if leb w.manager.max_open (length w.manager.paused) then (w, none) else (
  record w {
    manager = record w.manager {
      paused =
          insert f.id (record { flow = stopped; phase = phase; resume = w.next_channel })
            w.manager.paused;
    };
    channel = store w.channel w.next_channel none;
    next_channel = w.next_channel + 1;
    emitted = w.emitted ++ breakpoint_hit (snapshot stopped phase) ∷ [];
  },
  some (record { flow = stopped; prev_state = f.state; phase = phase; resume = w.next_channel }),
)
  where
    stopped : Flow
    stopped = record f { state = paused_at_breakpoint }

-- `unpublish`.
unfoldable pub unpublish : Manager → Text → Manager
unpublish b id = record b { paused = remove id b.paused }

-- `mergeFlow`.
unfoldable pub merge_flow : Flow → Flow → Flow
merge_flow dst src = record dst {
  request = elim src.request [ none ↦ dst.request | some r ↦ some r ];
  response = elim src.response [ none ↦ dst.response | some r ↦ some r ];
}

pub data Wake : Type 0 where
  received : ResumeMsg → Wake
  timed_out : Wake

unfoldable pub with_meta : Metadata → Text → MetaValue → Metadata
with_meta none k v = some ((k, v) ∷ [])
with_meta (some m) k v = some (insert k v m)

edited_flow : Waiting → Option Flow → Flow
unfolding merge_flow
edited_flow g none = record g.flow { state = g.prev_state }
edited_flow g (some e) = record (merge_flow g.flow e) { modified = true; state = g.prev_state }

-- The two branches of the `select`: the flow as it goes on, and whether it is to be aborted.
unfoldable pub outcome : Waiting → Wake → Flow × Bool
unfolding edited_flow with_meta
outcome g (received msg) = elim msg.action [
  | resume_abort ↦ (g.flow, true)
  | resume_continue ↦ (edited_flow g msg.edited, false)
]
outcome g timed_out = (
  record g.flow {
    state = g.prev_state;
    metadata = with_meta g.flow.metadata (codes "breakpointTimedOut") (flag true);
  },
  false,
)

emptied : World → Waiting → Wake → ℕ → Option ResumeMsg
emptied w g (received msg) = store w.channel g.resume none
emptied w g timed_out = w.channel

-- The start of either branch, before the flow is written to: a message is taken out of the channel,
-- and the flow off the list.
unfoldable pub taken_off : World → Waiting → Wake → World
unfolding unpublish emptied
taken_off w g wake = record w {
  manager = unpublish w.manager g.flow.id;
  channel = emptied w g wake;
}

-- The deferred function, with the flow as it then is.
unfoldable pub deferred : World → Waiting → Flow → World
unfolding unpublish snapshot
deferred w g f = record w {
  manager = unpublish w.manager g.flow.id;
  emitted = w.emitted ++ breakpoint_resolved (snapshot f g.phase) ∷ [];
}

-- `Pause` from its `select` on, with the deferred function.
unfoldable pub settle : World → Waiting → Wake → World × Flow × Bool
unfolding outcome taken_off deferred
settle w g wake =
    (deferred (taken_off w g wake) g (outcome g wake).0, (outcome g wake).0, (outcome g wake).1)

-- The call to `emit` before the `select` panics: only the deferred function is run.
unfoldable pub give_up : World → Waiting → World
unfolding deferred
give_up w g = deferred w g g.flow

-- `deliver` under its lock: what is published under the ID.
unfoldable pub published : World → Text → Option Paused
published w id = lookup id w.manager.paused

-- `deliver` behind its lock: a send that finds the channel full gives up.
unfoldable pub offer : World → Paused → ResumeMsg → World × Bool
offer w p msg = elim (w.channel p.resume) [
  | none ↦ (record w { channel = store w.channel p.resume (some msg) }, true)
  | some _ ↦ (w, false)
]

-- `deliver`; `meanwhile` is what other goroutines do between the lock and the send.
unfoldable pub deliver : World → (World → World) → Text → ResumeMsg → World × Bool
unfolding offer published
deliver w meanwhile id msg = elim (published w id) [
  | none ↦ (w, false)
  | some p ↦ offer (meanwhile w) p msg
]

unfoldable pub resume : World → (World → World) → Text → Option Flow → World × Bool
unfolding deliver
resume w meanwhile id edited =
    deliver w meanwhile id (record { action = resume_continue; edited = edited })

unfoldable pub abort : World → (World → World) → Text → World × Bool
unfolding deliver
abort w meanwhile id = deliver w meanwhile id (record { action = resume_abort; edited = none })

-- `List`.
unfoldable pub list : Manager → List Flow
unfolding snapshot
list b = map (λ e. snapshot e.1.flow e.1.phase) b.paused
