-- ===== src/Samples/Services.antt =====
-- internal/service on concrete entries.
use sniffy.Common.{
  ℕ, ◌+◌, ◌^◌, ◌≤◌, ◌≡◌, refl, true, false, not, ◌&&◌, List, [], ◌∷◌, map, none, some, arith,
  if◌then◌else◌,
}
use mathlib.Core.List.Perm
use sniffy.Common.Int.{pos}
use sniffy.Common.Bytes.{Text, codes, text_eq}
use sniffy.Common.Dict.{lookup, insert, remove}
use sniffy.Flow.{Flow, new}
use sniffy.BodyCache.Store.{Cache, Disk}
use sniffy.BodyCache.Accounts.{IsSound}
use sniffy.Rules.Types.{Rule}
use sniffy.Service.Pages.{
  page_bounds, page_bounds-le, page_or_first, size_or_default, start_of, end_of, is_negative, word,
}
use sniffy.Service.Sessions.{
  Change, put_entry, delete_entry, change_all, new_store, list, get, put, make_room, trim_locked,
  trim, capacity_or, entries, found, drop_id,
}
use sniffy.Service.Window.{Window, stored, IsWindow, change_windows, new_window}
use sniffy.Service.Kept.{change_all-refines}
use sniffy.Service.Statistics.{Collector, new_collector, reset, Counts, top_hosts}
use sniffy.Service.Counting.{record_all, record_all-Exact, Exact, top_hosts-perm}
use sniffy.Common.Utf8.{valid_utf8}
use sniffy.Service.RuleStore.{
  Json, RuleStore, Edit, create_rule, delete_rule, edit, edit_all, new_rule_store, load, rules_in,
  enter_some, delete_found, save, stamped,
}
use sniffy.Service.RuleStore as RuleStore
use sniffy.Service.Reloading.{AllReadBack, Restarts, reload-edit_all}
use sniffy.Service.Recording.{
  Service, new_service, started, completed, updated, report, report_all, record_flow_updated,
  no_effect, evict_all, put_flow, emit,
}
use sniffy.Service.Timelines.{new_ws_store, new_stream_store}
use sniffy.Service.Switch.{report_all-off, evict_all-removes, any_copy_at}
use sniffy.Samples.Flows.{sample_flow, sample_response}

abbrev changes : List (Change ℕ)
changes =
    put_entry (codes "a") 1
    ∷ put_entry (codes "b") 2
    ∷ put_entry (codes "c") 3
    ∷ delete_entry (codes "b")
    ∷ []

change_all-refines_example :
    (change_all changes (new_store 5000 (pos 2))
      ≡ stored (change_windows changes (new_window 5000 (pos 2))))
    × IsWindow (change_windows changes (new_window {V = ℕ} 5000 (pos 2))).0
change_all-refines_example = change_all-refines 5000 (pos 2) changes (omega arith)

abbrev three : Window ℕ
three = record { entries = (codes "a", 1) ∷ (codes "b", 2) ∷ (codes "c", 3) ∷ []; cap = 5 }

-- The product of the page before and the size is 2 ^ 64, which wraps around to 0.
wrapped_page : page_bounds 3 (pos (2 ^ 32 + 1)) (pos (2 ^ 32)) ≡ (0, 3)
unfolding page_bounds page_or_first size_or_default start_of end_of is_negative word
wrapped_page = refl

page_bounds-le_example :
    ((page_bounds 3 (pos (2 ^ 32 + 1)) (pos (2 ^ 32))).0
      ≤ (page_bounds 3 (pos (2 ^ 32 + 1)) (pos (2 ^ 32))).1)
    × ((page_bounds 3 (pos (2 ^ 32 + 1)) (pos (2 ^ 32))).1 ≤ 3)
page_bounds-le_example = page_bounds-le 3 (pos (2 ^ 32 + 1)) (pos (2 ^ 32))

abbrev answered : Flow
answered = record sample_flow { response = some sample_response }

-- A collector that has counted.
abbrev busy : Collector
busy = record_all new_collector (answered ∷ answered ∷ [])

record_all-Exact_example :
    Exact (answered ∷ sample_flow ∷ []) (record_all new_collector (answered ∷ sample_flow ∷ []))
    × Exact (answered ∷ sample_flow ∷ []) (record_all (reset busy) (answered ∷ sample_flow ∷ []))
record_all-Exact_example = record_all-Exact busy (answered ∷ sample_flow ∷ [])

abbrev two_hosts : Counts Text
two_hosts = (codes "a.test", 1) ∷ (codes "b.test", 3) ∷ []

abbrev turned : Counts Text
turned = (codes "b.test", 3) ∷ (codes "a.test", 1) ∷ []

top_hosts-perm_example : top_hosts turned ≡ top_hosts two_hosts
top_hosts-perm_example =
    top_hosts-perm turned two_hosts (Perm.swap (codes "a.test", 1) (codes "b.test", 3) [])

-- A format that replaces a name that is not UTF-8, as JSON does.
abbrev written : Rule → Rule
written r = record r { name = if valid_utf8 r.name then r.name else 239 ∷ 191 ∷ 189 ∷ [] }

abbrev lossy_json : Json (List Rule)
lossy_json = record {
  marshal = λ rules. some (map written rules);
  unmarshal = λ rules. some (map some rules);
}

abbrev sample_rule : Rule
sample_rule = record {
  id = [];
  name = codes "block";
  description = [];
  enabled = true;
  conditions = [];
  actions = [];
  priority = pos 1;
  logic_operator = [];
  tags = [];
  created_at = [];
  updated_at = [];
}

abbrev edits : List Edit
edits =
    create_rule (codes "1") (codes "now") sample_rule
    ∷ create_rule (codes "2") (codes "now") sample_rule
    ∷ delete_rule (codes "rule-1")
    ∷ []

abbrev no_rules : RuleStore (List Rule)
no_rules = record { order = []; items = []; path = codes "/rules.json"; file = none }

edits-AllReadBack : AllReadBack lossy_json edits no_rules
unfolding edit RuleStore.create RuleStore.delete delete_found save RuleStore.list entries found
    stamped lookup insert remove drop_id text_eq valid_utf8
edits-AllReadBack = ((_, refl, refl), ((_, refl, refl), ((_, refl, refl), tt)))

reload-edit_all_example :
    let rs = edit_all lossy_json edits no_rules in
    Restarts lossy_json rs.path rs.file (RuleStore.list rs)
unfolding new_rule_store load rules_in enter_some
reload-edit_all_example =
    reload-edit_all lossy_json (codes "/rules.json") none no_rules edits refl refl edits-AllReadBack

abbrev stopped : Service
stopped = new_service (pos 10) false true

-- `RecordFlowUpdated` does not ask for the switch: a flow that nobody was to record is stored.
updated_while_stopped :
    get (record_flow_updated stopped sample_flow).state.sessions sample_flow.id ≡ some sample_flow
unfolding record_flow_updated put_flow put make_room get lookup insert trim_locked trim new_service
    new_store new_ws_store new_stream_store capacity_or emit text_eq new
updated_while_stopped = refl

report_all-off_example :
    let quiet = report_all stopped (started sample_flow ∷ completed sample_flow ∷ []) in
    (quiet ≡ no_effect stopped)
    × ((f : Flow)
        → (get (report quiet.state (updated f)).state.sessions f.id ≡ some f)
          × ((report quiet.state (updated f)).state.stats ≡ stopped.stats))
unfolding new_service new_store get lookup
report_all-off_example =
    report_all-off (started sample_flow ∷ completed sample_flow ∷ []) stopped refl (tt, (refl, tt))

abbrev kept_body : Flow
kept_body = record sample_flow {
  response = some (record sample_response { body_file = codes "/b/1.body"; body_size = pos 60 });
}

abbrev one_copy : Cache
one_copy = record {
  dir = codes "/b";
  budget = 100;
  order = codes "/b/1.body" ∷ [];
  sizes = (codes "/b/1.body", 60) ∷ [];
  total = 60;
}

one_copy-IsSound : IsSound one_copy
one_copy-IsSound = record {
  balanced = record { listed = refl; distinct = (tt, tt); summed = refl };
  within = omega arith;
}

abbrev copies : Disk
copies = record { files = one_copy.sizes; locked = λ p. false }

evict_all-removes_example :
    IsSound (evict_all (kept_body ∷ []) one_copy copies).0
    × ((q : Text)
        → lookup q (evict_all (kept_body ∷ []) one_copy copies).1.files ≡ (
            if any_copy_at q (kept_body ∷ []) && not (copies.locked q)
            then none
            else lookup q copies.files))
evict_all-removes_example = evict_all-removes (kept_body ∷ []) one_copy copies one_copy-IsSound
