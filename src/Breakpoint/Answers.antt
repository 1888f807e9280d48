-- ===== src/Breakpoint/Answers.antt =====
-- internal/pipeline/breakpoint.go: what becomes of a paused flow, and which answer counts.
use sniffy.Common.{◌≡◌, Bool, true, false, Option, none, some}
use sniffy.Common.Bytes.{codes}
use sniffy.Flow.{Flow, Phase, flag, paused_at_breakpoint}
use sniffy.Breakpoint.State.{resume_continue, resume_abort}
use sniffy.Breakpoint.Pause.{World, Waiting, Wake, received, timed_out, with_meta}

-- The flow that an answer sends on.
abbrev pub edited : Flow → Option Flow → Flow
edited f none = f
edited f (some e) = record f {
  request = elim e.request [ none ↦ f.request | some r ↦ some r ];
  response = elim e.response [ none ↦ f.response | some r ↦ some r ];
  modified = true;
}

-- What a goroutine that has entered with `f` hands back, by what wakes it.
abbrev pub HandsBack : Flow → Wake → Flow × Bool → Type 0
HandsBack f (received msg) out = elim msg.action [
  | resume_abort ↦ out.1 ≡ true
  | resume_continue ↦ (out.0 ≡ edited f msg.edited) × (out.1 ≡ false)
]
HandsBack f timed_out out =
    (out.0 ≡ record f { metadata = with_meta f.metadata (codes "breakpointTimedOut") (flag true) })
    × (out.1 ≡ false)

-- The goroutine that `enter` leaves waiting.
abbrev entered : World → Flow → Phase → Waiting
entered w f phase = record {
  flow = record f { state = paused_at_breakpoint };
  prev_state = f.state;
  phase = phase;
  resume = w.next_channel;
}
