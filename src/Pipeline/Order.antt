-- ===== src/Pipeline/Order.antt =====
-- internal/pipeline/pipeline.go: the order in which the hooks of a stage run, and what a reload of
-- the plugins leaves.
use mathlib.Core.List.{Perm}
use sniffy.Common.{List, [], ◌∷◌, ◌++◌}
use sniffy.Common.Sort.{
  Ascending, SameByKey, sort_stable-Ascending, sort_stable-perm, sort_stable-SameByKey,
}
use sniffy.Pipeline.Hooks.{
  Hook, Plugin, Registry, by_priority, register, snapshot_req, snapshot_resp, snapshot_ws,
  snapshot_stream,
}

-- `out` lists core hooks and plugin hooks, each once, by rising priority; hooks of one priority keep
-- their order, the core's first.
pub record RunsInOrder {A : Type 0} (core plugins out : List (Hook A)) : Type 0 where
  pub complete : Perm out (core ++ plugins)
  pub rising : Ascending (λ h. h.priority) out
  pub stable : SameByKey (λ h. h.priority) out (core ++ plugins)

by_priority-RunsInOrder :
    {A : Type 0} (core plugins : List (Hook A))
    → RunsInOrder core plugins (by_priority (core ++ plugins))
unfolding by_priority
by_priority-RunsInOrder core plugins = record {
  complete = sort_stable-perm (λ h. h.priority) (core ++ plugins);
  rising = sort_stable-Ascending (λ h. h.priority) (core ++ plugins);
  stable = sort_stable-SameByKey (λ h. h.priority) (core ++ plugins);
}

-- The list that each stage goes through has all its hooks once, by rising priority, and at one
-- priority the core's hooks before the plugins', each in the order in which the registry holds them.
-- (Which of them the stage calls, also depends on their switches, the URL and earlier decisions.)
pub snapshots-RunsInOrder :
    (p : Registry)
    → RunsInOrder p.core_req p.req_hooks (snapshot_req p)
      × RunsInOrder p.core_resp p.resp_hooks (snapshot_resp p)
      × RunsInOrder p.core_ws p.ws_hooks (snapshot_ws p)
      × RunsInOrder p.core_stream p.stream_hooks (snapshot_stream p)
unfolding snapshot_req snapshot_resp snapshot_ws snapshot_stream
snapshots-RunsInOrder p = (
  by_priority-RunsInOrder p.core_req p.req_hooks,
  by_priority-RunsInOrder p.core_resp p.resp_hooks,
  by_priority-RunsInOrder p.core_ws p.ws_hooks,
  by_priority-RunsInOrder p.core_stream p.stream_hooks,
)

pub register_all : Registry → List Plugin → Registry
register_all p [] = p
register_all p (h ∷ hs) = register_all (register p h) hs
