-- ===== src/Samples/Breakpoints.antt =====
-- internal/pipeline/breakpoint.go on concrete managers, rules and goroutines.
use sniffy.Common.{◌≡◌, ◌↔◌, refl, inl, true, false, [], ◌∷◌, none, arith, All}
use sniffy.Common.Bytes.{codes, text_eq}
use sniffy.Common.Dict.{lookup, insert}
use sniffy.Common.Wildcard.{Glob, glob_to_regex, match_string, match_string_iff_Glob}
use sniffy.Flow.{Flow, request_phase, new, paused_at_breakpoint}
use sniffy.Breakpoint.{Manager, BreakRule, ResumeMsg, resume_abort, should_break_for}
use sniffy.Breakpoint.Match.{should_break_for_iff, CacheHolds}
use sniffy.Breakpoint.Pause.{World, Waiting, timed_out, enter, settle, published, offer, deliver}
use sniffy.Breakpoint.Slots.{
  System, joined, entering, expiring, Reach, here, next, IsSound, Reach-IsSound,
}

abbrev api_rule : BreakRule
api_rule = record {
  id = codes "bp-1";
  url = codes " *.test/api* ";
  on_request = true;
  on_response = false;
  enabled = true;
  re_src = [];
  re = none;
}

abbrev with_rule : Manager
with_rule = record {
  paused = [];
  timeout = 300000;
  max_open = 1;
  break_request = false;
  break_response = false;
  rules = api_rule ∷ [];
  rule_seq = 1;
}

abbrev world : World
world = record { manager = with_rule; channel = λ n. none; next_channel = 0; emitted = [] }

abbrev sample : Flow
sample = record (new (codes "f1") (codes "http") 7) { modified = false }

-- The caches aside, looking does not change the manager.
should_break_for_iff_example :
    All CacheHolds (should_break_for with_rule (codes "http://a.test/api/v1") request_phase).0.rules
should_break_for_iff_example =
    (should_break_for_iff with_rule (codes "http://a.test/api/v1") request_phase (inl refl, tt)).1

match_string_iff_Glob_example :
    (match_string (glob_to_regex (codes "*.test")) (codes "a.test") ≡ true)
    ↔ Glob (codes "*.test") (codes "a.test")
match_string_iff_Glob_example = match_string_iff_Glob (codes "*.test") (codes "a.test")

-- One flow enters, and its time is up.
abbrev start : System
start = record { world = world; waiting = []; answering = [] }

abbrev entered : System
entered = record {
  world = (enter world sample request_phase).0;
  waiting = joined (enter world sample request_phase).1 [];
  answering = [];
}

abbrev goroutine : Waiting
goroutine = record {
  flow = record sample { state = paused_at_breakpoint };
  prev_state = sample.state;
  phase = request_phase;
  resume = 0;
}

abbrev left : System
left = record { world = (settle entered.world goroutine timed_out).0; waiting = []; answering = [] }

history : Reach start left
unfolding enter
history =
    next (next here (entering start sample request_phase)) (expiring entered [] [] goroutine refl)

Reach-IsSound_example : IsSound left
Reach-IsSound_example = Reach-IsSound history (record { bounded = omega arith; owned = tt })

abbrev abort_msg : ResumeMsg
abort_msg = record { action = resume_abort; edited = none }

-- Another goroutine changes the list between the lock and the send.
abbrev emptying : World → World
emptying w = record w { manager = record w.manager { paused = [] } }

abbrev idle : World → World
idle w = w

-- The answer is taken, the next one is not; and one that is late for the list is.
answers :
    ((deliver entered.world idle (codes "f1") abort_msg).1 ≡ true)
    × ((deliver (deliver entered.world idle (codes "f1") abort_msg).0 idle (codes "f1") abort_msg).1
        ≡ false)
    × ((deliver entered.world emptying (codes "f1") abort_msg).1 ≡ true)
unfolding enter deliver published offer insert lookup text_eq new
answers = (refl, refl, refl)
