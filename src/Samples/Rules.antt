-- ===== src/Samples/Rules.antt =====
-- internal/rules and capture/throttle.go on concrete input.
use sniffy.Common.{
  ◌≤◌, ◌≡◌, ◌≢◌, ◌↔◌, refl, ◌⊎◌, true, false, not, List, [], ◌∷◌, ◌++◌, Option, none, some, arith,
  ltb, length, take, All,
}
use sniffy.Common.Int.{pos, negsuc}
use sniffy.Common.Sort.{Ascending}
use sniffy.Common.Bytes.{codes, text_eq}
use sniffy.Flow.{Flow, Request, Response, new}
use sniffy.Rules.Values.{Conversions, null, text, no_fields, field, value_at, get_str, stringify}
use sniffy.Rules.Types.{Condition, Action, Rule}
use sniffy.Rules.Sorted.{sorted_rules, insertion_sort, enabled_rules, sorted_rules-Ascending}
use sniffy.Rules.Conditions.{
  Matchers, matches, field_value, eval_condition, answer, conditions_loop, match_op, compare,
}
use sniffy.Rules.Matching.{matches_iff, SomeOf, Holds}
use sniffy.Rules.Engine.{
  Editing, request_rules, and_then, on_request, on_request_of, finished, final_flow,
  request_actions, request_action, edited,
}
use sniffy.Rules.Quiet.{on_request-unmodified}
use sniffy.Rules.Responses.{
  on_response, on_response_of, response_rules, response_actions, response_action, answered,
}
use sniffy.Throttle.Conn.{Connection, write}
use sniffy.Throttle.Writing.{write-IsComplete}

-- Plain ASCII conversions, with integers for floats, and patterns that match themselves.
abbrev plain : Conversions
plain = record {
  to_lower = λ s. s;
  to_upper = λ s. s;
  equal_fold = text_eq;
  format_number = λ n. [];
  format_int = λ z. [];
  atoi = λ s. pos 0;
  to_int = λ n. pos n;
  parse_float = λ s. none;
  less = ltb;
  less_or_equal = λ x y. not (ltb y x);
}

abbrev matchers : Matchers
matchers = record {
  conv = plain;
  parse_url = λ s. none;
  url_string = λ u. u.host;
  replacer = λ p. none;
  compile = λ p. some (text_eq p);
}

abbrev request : Request
request = record {
  method = codes "GET";
  url = codes "http://a.test/x";
  host = codes "a.test";
  path = codes "/x";
  proto = codes "HTTP/1.1";
  header = some [];
  body = codes "hi";
  client_ip = [];
  raw_headers = [];
  orig_encoded_body = none;
  orig_decoded_body = [];
  orig_encoding = [];
}

abbrev on_host : Condition
on_host = record {
  subject = codes "url_host";
  operator = codes "equals";
  value = text (codes "a.test");
  value2 = null;
  case_sensitive = true;
  negate = false;
  header_name = [];
}

abbrev on_status : Condition
on_status = record on_host { subject = codes "response_status" }

abbrev to_post : Action
to_post = record {
  kind = codes "modify_method";
  parameters = field (codes "newMethod") (text (codes "POST")) no_fields;
  enabled = true;
  description = [];
}

abbrev post_rule : Rule
post_rule = record {
  id = codes "r1";
  name = codes "post";
  description = [];
  enabled = true;
  conditions = on_host ∷ [];
  actions = to_post ∷ [];
  priority = pos 2;
  logic_operator = codes "AND";
  tags = [];
  created_at = [];
  updated_at = [];
}

abbrev early_rule : Rule
early_rule = record post_rule {
  id = codes "r2";
  priority = negsuc 0;
  actions = [];
  conditions = on_status ∷ [];
}

abbrev store : List (Option Rule)
store = some post_rule ∷ none ∷ some early_rule ∷ []

sorted_rules-Ascending_example : Ascending (λ r. r.priority) (sorted_rules (some store))
sorted_rules-Ascending_example = (sorted_rules-Ascending store).0

matches_iff_example : (matches matchers post_rule request none ≡ true) ↔ (
    (post_rule.conditions ≡ [])
    ⊎ (((text_eq (codes "AND") (codes "OR") ≡ true)
          × SomeOf (Holds matchers request none) (on_host ∷ []))
        ⊎ ((text_eq (codes "AND") (codes "OR") ≡ false)
            × All (Holds matchers request none) (on_host ∷ []))))
matches_iff_example = matches_iff matchers request none post_rule

abbrev editing : Editing
editing = record { flow = new (codes "f1") (codes "http") 7; request = request; slept = 0 }

abbrev response : Response
response = record {
  status = pos 200;
  status_text = [];
  header = none;
  body = [];
  trailer = none;
  raw_headers = [];
  orig_status_line = [];
  orig_encoded_body = none;
  orig_decoded_body = [];
  orig_encoding = [];
  body_file = [];
  body_size = pos 0;
}

abbrev flow : Flow
flow = record (new (codes "f1") (codes "http") 7) { request = some request }

unmarked : (on_request matchers (some (some early_rule ∷ [])) flow).0.modified ≡ false
unfolding on_request on_request_of sorted_rules enabled_rules insertion_sort request_rules matches
    conditions_loop eval_condition field_value answer text_eq finished final_flow new
unmarked = refl

-- The rule is about a response, so the request is left alone, and not marked.
on_request-unmodified_example : (on_request matchers (some (some early_rule ∷ [])) flow).0 ≡ flow
on_request-unmodified_example =
    on_request-unmodified matchers (some (some early_rule ∷ [])) flow unmarked

-- The rule for requests changes the method, and the flow is marked.
posted :
    let out = (on_request matchers (some store) flow).0 in
    (out.request ≡ some (record request { method = codes "POST" })) × (out.modified ≡ true)
unfolding on_request on_request_of sorted_rules enabled_rules insertion_sort request_rules matches
    conditions_loop eval_condition field_value answer text_eq finished final_flow new match_op
    request_actions request_action edited get_str stringify value_at compare and_then
posted = (refl, refl)

abbrev answered_flow : Flow
answered_flow = record flow { response = some response }

unmarked_response : (on_response matchers (some store) request answered_flow).0.modified ≡ false
unfolding on_response on_response_of sorted_rules enabled_rules insertion_sort response_rules
    matches conditions_loop eval_condition field_value answer text_eq answered new match_op
    response_actions response_action compare stringify
unmarked_response = refl

-- A connection that takes all that it is given.
abbrev greedy : Connection
greedy = λ sent p. (length p, false)

write-IsComplete_example :
    let out = write (λ k. pos 4096) greedy [] (codes "hello") in
    (out.total ≤ length (codes "hello"))
    × (out.sent ≡ [] ++ take out.total (codes "hello"))
    × ((out.error ≢ none) ⊎ (out.total ≡ length (codes "hello")))
write-IsComplete_example =
    write-IsComplete (λ k. pos 4096) greedy [] (codes "hello")
      (record { fits = λ sent p. omega arith; complete = λ sent p e. refl })
