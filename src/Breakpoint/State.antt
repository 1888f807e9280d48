-- ===== src/Breakpoint/State.antt =====
-- internal/pipeline/breakpoint.go: the manager's state, its switches, and when a flow is to stop.
-- These methods hold the manager's lock throughout, so each is one step on the state.
use sniffy.Common.{
  ℕ, ◌+◌, ◌*◌, Bool, true, false, not, List, [], ◌∷◌, ◌++◌, Option, none, some, is_nil, take,
  if◌then◌else◌,
}
use sniffy.Common.Bytes.{Text, codes, text_eq, contains}
use sniffy.Common.Trim.{trim_space}
use sniffy.Common.Utf8.{valid_utf8}
use sniffy.Common.Wildcard.{Piece, asterisk, glob_to_regex, match_string}
use sniffy.Flow.{Flow, Phase, request_phase, response_phase, unknown_phase}

-- `ResumeAction` and `resumeMsg`.
pub data ResumeAction : Type 0 where
  resume_continue resume_abort : ResumeAction

pub record ResumeMsg : Type 0 where
  pub action : ResumeAction
  pub edited : Option Flow

-- `paused`: the number of the channel stands for the pointer.
pub record Paused : Type 0 where
  pub flow : Flow
  pub phase : Phase
  pub resume : ℕ

-- `re_src` and `re` are the cache of the compiled pattern.
pub record BreakRule : Type 0 where
  pub id : Text
  pub url : Text
  pub on_request : Bool
  pub on_response : Bool
  pub enabled : Bool
  pub re_src : Text
  pub re : Option (List Piece)

pub record Manager : Type 0 where
  pub paused : List (Text × Paused)
  pub timeout : ℕ
  pub max_open : ℕ
  pub break_request : Bool
  pub break_response : Bool
  pub rules : List BreakRule
  pub rule_seq : ℕ

-- `NewBreakpointManager`; the timeout is in milliseconds.
unfoldable pub new_manager : Manager
new_manager = record {
  paused = [];
  timeout = 5 * 60 * 1000;
  max_open = 100;
  break_request = false;
  break_response = false;
  rules = [];
  rule_seq = 0;
}

unfoldable pub set_global_break : Manager → Bool → Bool → Manager
set_global_break b on_request on_response = record b {
  break_request = on_request;
  break_response = on_response;
}

unfoldable pub global_break : Manager → Bool × Bool
global_break b = (b.break_request, b.break_response)

-- `globalForLocked`, which is all of `ShouldBreak`.
unfoldable pub should_break : Manager → Phase → Bool
should_break b request_phase = b.break_request
should_break b response_phase = b.break_response
should_break b (unknown_phase p) = false

-- `compileWildcard`: the quoted text compiles exactly where the pattern is UTF-8.
unfoldable pub compile_wildcard : Text → Option (List Piece)
unfolding valid_utf8
compile_wildcard pattern = if valid_utf8 pattern then some (glob_to_regex pattern) else none

unfoldable pub matches_compiled : Option (List Piece) → Text → Bool
matches_compiled none url = false
matches_compiled (some ps) url = match_string ps url

-- The cache of a rule, brought up to date for its trimmed pattern.
unfoldable pub refresh : BreakRule → Text → BreakRule
unfolding compile_wildcard
refresh r pattern =
    if not (text_eq r.re_src pattern)
    then record r { re = compile_wildcard pattern; re_src = pattern }
    else r

unfoldable pub matches_pattern : BreakRule → Text → Text → BreakRule × Bool
unfolding refresh matches_compiled
matches_pattern r [] url = (r, false)
matches_pattern r (c ∷ p) url =
    if not (contains (c ∷ p) (asterisk ∷ []))
    then (r, contains url (c ∷ p))
    else (refresh r (c ∷ p), matches_compiled (refresh r (c ∷ p)).re url)

-- `matchesLocked`: the answer, and the rule with its cache.
unfoldable pub matches_locked : BreakRule → Text → BreakRule × Bool
unfolding matches_pattern
matches_locked r url = matches_pattern r (trim_space r.url) url

-- Whether a rule is not passed over for the phase.
unfoldable pub covers : BreakRule → Phase → Bool
covers r request_phase = r.on_request
covers r response_phase = r.on_response
covers r (unknown_phase p) = true

-- The loop of `ShouldBreakFor`.
unfoldable pub scan : List BreakRule → Text → Phase → List BreakRule × Bool
unfolding covers matches_locked
scan [] url phase = ([], false)
scan (r ∷ rs) url phase =
    let rest = scan rs url phase in
    let tried = matches_locked r url in
    if not r.enabled
    then (r ∷ rest.0, rest.1)
    else if not (covers r phase)
    then (r ∷ rest.0, rest.1)
    else if tried.1
    then (tried.0 ∷ rs, true)
    else (tried.0 ∷ rest.0, rest.1)

unfoldable pub should_break_for : Manager → Text → Phase → Manager × Bool
unfolding should_break scan
should_break_for b url phase =
    if should_break b phase
    then (b, true)
    else (record b { rules = (scan b.rules url phase).0 }, (scan b.rules url phase).1)

-- `ListRules`: copies of the rules.
unfoldable pub list_rules : Manager → List BreakRule
list_rules b = b.rules

-- `AddRuleWithEnabled`; `new_id` is the random ID that `flow.NewID` returns.
unfoldable pub add_rule_with_enabled :
    Manager → Text → Text → Bool → Bool → Bool → Manager × BreakRule
add_rule_with_enabled b new_id url on_req on_resp enabled =
    (record b { rule_seq = b.rule_seq + 1; rules = b.rules ++ rule ∷ [] }, rule)
  where
    rule : BreakRule
    rule = record {
      id = codes "bp-" ++ take 8 new_id;
      url = url;
      on_request = on_req;
      on_response = on_resp;
      enabled = enabled;
      re_src = [];
      re = none;
    }

unfoldable pub add_rule : Manager → Text → Text → Bool → Bool → Manager × BreakRule
unfolding add_rule_with_enabled
add_rule b new_id url on_req on_resp = add_rule_with_enabled b new_id url on_req on_resp true

-- The first rule with the ID is replaced by its image; `none` if there is none.
unfoldable pub change_first :
    Text → (BreakRule → BreakRule) → List BreakRule → Option (List BreakRule × BreakRule)
change_first id g [] = none
change_first id g (r ∷ rs) =
    let rest = change_first id g rs in
    if text_eq r.id id
    then some (g r ∷ rs, g r)
    else elim rest [ none ↦ none | some (rs', r') ↦ some (r ∷ rs', r') ]

unfoldable pub with_rules :
    Manager → Option (List BreakRule × BreakRule) → Manager × Option BreakRule
with_rules b none = (b, none)
with_rules b (some (rs, r)) = (record b { rules = rs }, some r)

unfoldable pub or_else : Option Bool → Bool → Bool
or_else none old = old
or_else (some new) old = new

unfoldable pub edit : Text → Bool → Bool → Option Bool → BreakRule → BreakRule
unfolding or_else
edit url on_req on_resp enabled r = record r {
  url = if not (is_nil url) then url else r.url;
  on_request = on_req;
  on_response = on_resp;
  enabled = or_else enabled r.enabled;
}

unfoldable pub update_rule_fields :
    Manager → Text → Text → Bool → Bool → Option Bool → Manager × Option BreakRule
unfolding with_rules change_first edit
update_rule_fields b id url on_req on_resp enabled =
    with_rules b (change_first id (edit url on_req on_resp enabled) b.rules)

unfoldable pub toggle_rule : Manager → Text → Bool → Manager × Option BreakRule
unfolding with_rules change_first
toggle_rule b id enabled =
    with_rules b (change_first id (λ r. record r { enabled = enabled }) b.rules)

-- `UpdateRule`: whether the rule was there.
unfoldable pub is_there : Manager × Option BreakRule → Manager × Bool
is_there (b, none) = (b, false)
is_there (b, some r) = (b, true)

unfoldable pub update_rule : Manager → Text → Text → Bool → Bool → Bool → Manager × Bool
unfolding is_there update_rule_fields
update_rule b id url on_req on_resp enabled =
    is_there (update_rule_fields b id url on_req on_resp (some enabled))

unfoldable pub delete_first : Text → List BreakRule → Option (List BreakRule)
delete_first id [] = none
delete_first id (r ∷ rs) =
    let rest = delete_first id rs in
    if text_eq r.id id then some rs else elim rest [ none ↦ none | some rs' ↦ some (r ∷ rs') ]

unfoldable pub delete_rule : Manager → Text → Manager × Bool
unfolding delete_first
delete_rule b id = elim (delete_first id b.rules) [
  | none ↦ (b, false)
  | some rs ↦ (record b { rules = rs }, true)
]
