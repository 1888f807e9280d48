-- ===== src/Samples/Hooks.antt =====
-- internal/pipeline on concrete hooks.
use sniffy.Common.{◌≡◌, refl, true, [], ◌∷◌, none, some}
use sniffy.Common.Int.{pos, negsuc}
use sniffy.Common.Sort.{sort_stable}
use sniffy.Common.Bytes.{Text, codes}
use sniffy.Flow.{Flow, Decision, new, continue_decision, mock_decision}
use sniffy.Breakpoint.{new_manager}
use sniffy.Breakpoint.Pause.{World}
use sniffy.Pipeline.{
  Hook, Plugin, Registry, Called, returned, panicked, by_priority, add_last, snapshot_req, register,
  register_core, on_request, Progress, run, start, ends, maybe_pause, pause,
}
use sniffy.Pipeline.Order.{RunsInOrder, snapshots-RunsInOrder}

abbrev new_pipeline : Registry
new_pipeline = sniffy.Pipeline.new

abbrev hook : Text → Decision → Hook Flow
hook name d = record {
  name = name;
  priority = pos 0;
  enabled = true;
  matches = λ _. true;
  call = λ f. returned f d;
}

abbrev rules_hook : Hook Flow
rules_hook = hook (codes "rules-engine") (mock_decision (codes "mocked"))

abbrev idle_hook : Hook Flow
idle_hook = record (hook (codes "idle") continue_decision) { priority = negsuc 4 }

abbrev request_plugin : Hook Flow → Plugin
request_plugin h = record {
  on_request = some h;
  on_response = none;
  on_web_socket_message = none;
  on_stream_message = none;
  on_connection = none;
}

abbrev registry : Registry
registry =
    register (register_core new_pipeline (request_plugin rules_hook)) (request_plugin idle_hook)

abbrev sample : Flow
sample = new (codes "f1") (codes "http") 7

abbrev world : World
world = record { manager = new_manager; channel = λ n. none; next_channel = 0; emitted = [] }

snapshots-RunsInOrder_example :
    RunsInOrder registry.core_req registry.req_hooks (snapshot_req registry)
snapshots-RunsInOrder_example = (snapshots-RunsInOrder registry).0

-- The plugin has the smaller priority, so it runs first.
first_to_run : snapshot_req registry ≡ idle_hook ∷ rules_hook ∷ []
unfolding snapshot_req register register_core by_priority sort_stable add_last sniffy.Pipeline.new
first_to_run = refl
