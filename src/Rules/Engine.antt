-- ===== src/Rules/Engine.antt =====
-- internal/rules/engine.go: `OnRequest` and `OnResponse`. A sleep is the number of its milliseconds,
-- and those of one call are added up.
use sniffy.Common.{
  ℕ, ◌+◌, Bool, true, false, not, ◌||◌, ◌&&◌, List, [], ◌∷◌, ◌++◌, Option, none, some, is_nil,
  if◌then◌else◌, ◌==◌,
}
use sniffy.Common.Int.{ℤ, pos, is_pos, pos_part, neg_part}
use sniffy.Common.Bytes.{Text, text_eq, codes, contains}
use sniffy.Common.Dict.{insert}
use sniffy.Flow.{
  Flow, Request, Response, Decision, continue_decision, abort_decision, mock_decision,
}
use sniffy.Rules.Values.{
  Conversions, Value, null, text, flag, number, integer, object, array, Object, no_fields, value_at,
  get_str, get_int, first_non_empty,
}
use sniffy.Rules.Types.{Rule, Action}
use sniffy.Rules.Sorted.{sorted_rules}
use sniffy.Rules.Conditions.{Matchers, matches}
use sniffy.Rules.HeaderOps.{Fields, set_each, apply_header_ops}
use sniffy.Rules.Edits.{apply_redirect, apply_modify_url, apply_body_replace, apply_delay}

-- The flow, its request, which is kept apart, and how long the call has slept.
pub record Editing : Type 0 where
  pub flow : Flow
  pub request : Request
  pub slept : ℕ

-- An action goes on to the next, or ends the call.
pub data Outcome : Type 0 where
  goes_on : Editing → Outcome
  ends : Editing → Decision → Outcome

-- `f.Modified = true` where an edit has been made.
unfoldable pub edited : Editing → Option Request → Editing
edited e none = e
edited e (some q) = record e { flow = record e.flow { modified = true }; request = q }

status_or : ℤ → ℤ → ℤ
status_or default z = if pos_part z + neg_part z == 0 then default else z

block : Conversions → Rule → Object → Decision
unfolding status_or
block c r params =
    abort_decision (status_or (pos 403) (get_int c params (codes "statusCode")))
      (first_non_empty (get_str c params (codes "message")) (codes "blocked by rule: " ++ r.name))

response_object : Value → Object
response_object (object m) = m
response_object null = no_fields
response_object (text t) = no_fields
response_object (flag b) = no_fields
response_object (number n) = no_fields
response_object (integer z) = no_fields
response_object (array xs) = no_fields

-- `applyAutoRespond`: the response that it makes; a nil map is one with no fields.
unfoldable pub auto_response : Conversions → Object → Response
unfolding response_object
auto_response c params =
    let resp = response_object (value_at (codes "response") params) in
    let status = get_int c resp (codes "status") in
    let content_type =
      first_non_empty (get_str c resp (codes "contentType")) (codes "application/json") in
    record {
      status = if is_pos status then status else pos 200;
      status_text = [];
      header =
          some
            (set_each c (response_object (value_at (codes "headers") resp))
              ((codes "Content-Type", content_type ∷ []) ∷ [], false)).0;
      body = get_str c resp (codes "body");
      trailer = none;
      raw_headers = [];
      orig_status_line = [];
      orig_encoded_body = none;
      orig_decoded_body = [];
      orig_encoding = [];
      body_file = [];
      body_size = pos 0;
    }

new_method : Request → Text → Option Request
new_method q [] = none
new_method q (c ∷ s) = some (record q { method = c ∷ s })

-- A Host header is the request's host, too.
with_host : Conversions → Object → Request → Request
with_host c params q =
    let v = get_str c params (codes "value") in
    if c.equal_fold (get_str c params (codes "name")) (codes "Host") && not (is_nil v)
    then record q { host = v }
    else q

-- `modify_headers`: the headers are edited in place; the rest happens if something was changed.
unfoldable pub headers_edited : Conversions → Object → Editing → Option Fields × Bool → Editing
unfolding with_host
headers_edited c params e (h, changed) =
    let q = record e.request { header = h } in
    if changed then edited e (some (with_host c params q)) else record e { request = q }

new_body : Request → Option Text → Option Request
new_body q none = none
new_body q (some b) = some (record q { body = b })

with_field : Text → Text → Option Fields → Option Fields
with_field k v none = some ((k, v ∷ []) ∷ [])
with_field k v (some h) = some (insert k (v ∷ []) h)

-- `replace_body`: a content type with a line break in it is dropped.
replaced_body : Conversions → Object → Request → Request
unfolding with_field
replaced_body c params q =
    let ct = get_str c params (codes "contentType") in
    let q' = record q { body = get_str c params (codes "body") } in
    if is_nil ct || (contains ct (13 ∷ []) || contains ct (10 ∷ []))
    then q'
    else record q' { header = with_field (codes "Content-Type") ct q.header }

-- One action.
unfoldable pub request_action : Matchers → Rule → Action → Editing → Outcome
unfolding new_method headers_edited new_body replaced_body block
request_action m r a e =
    let c = m.conv in
    let str = λ (key : Text). get_str c a.parameters key in
    let is = λ (name : Text). text_eq a.kind name in
    if is (codes "block")
    then ends e (block c r a.parameters)
    else if is (codes "auto_respond")
    then ends
        (record e {
          flow = record e.flow { response = some (auto_response c a.parameters); modified = true };
        })
        (mock_decision (codes "mocked by rule: " ++ r.name))
    else if is (codes "redirect")
    then goes_on (edited e (apply_redirect m e.request (str (codes "url"))))
    else if is (codes "modify_url")
    then goes_on (
        edited e
          (apply_modify_url m e.request (str (codes "urlPattern")) (str (codes "replacement"))))
    else if is (codes "modify_method")
    then goes_on (edited e (new_method e.request (str (codes "newMethod"))))
    else if is (codes "modify_headers")
    then goes_on (
        headers_edited c a.parameters e
          (apply_header_ops c e.request.header a.parameters (codes "headers")))
    else if is (codes "modify_body")
    then goes_on (
        edited e (
          new_body e.request (
            apply_body_replace e.request.body (str (codes "bodyPattern"))
              (str (codes "bodyReplacement")))))
    else if is (codes "replace_body")
    then goes_on (edited e (some (replaced_body c a.parameters e.request)))
    else if is (codes "delay")
    then goes_on
        (record e { slept = e.slept + apply_delay (get_int c a.parameters (codes "milliseconds")) })
    else goes_on e

unfoldable pub and_then : Outcome → (Editing → Outcome) → Outcome
and_then (goes_on e) k = k e
and_then (ends e d) k = ends e d

unfoldable pub request_actions : Matchers → Rule → List Action → Editing → Outcome
unfolding and_then
request_actions m r [] e = goes_on e
request_actions m r (a ∷ acts) e =
    and_then (request_action m r a e) (λ e'. request_actions m r acts e')

unfoldable pub request_rules : Matchers → List Rule → Editing → Outcome
unfolding and_then
request_rules m [] e = goes_on e
request_rules m (r ∷ rs) e =
    let rest = λ (e' : Editing). request_rules m rs e' in
    if not (matches m r e.request e.flow.response)
    then rest e
    else and_then (request_actions m r r.actions e) rest

unfoldable pub final_flow : Editing → Flow
final_flow e = record e.flow { request = some e.request }

unfoldable pub finished : Outcome → Flow × Decision × ℕ
unfolding final_flow
finished (goes_on e) = (final_flow e, continue_decision, e.slept)
finished (ends e d) = (final_flow e, d, e.slept)

-- `OnRequest`: the flow as it is left, the decision, and the time slept.
unfoldable pub on_request_of :
    Matchers → Option (List (Option Rule)) → Flow → Option Request → Flow × Decision × ℕ
on_request_of m rules f none = (f, continue_decision, 0)
on_request_of m rules f (some q) =
    finished (request_rules m (sorted_rules rules) (record { flow = f; request = q; slept = 0 }))

unfoldable pub on_request : Matchers → Option (List (Option Rule)) → Flow → Flow × Decision × ℕ
on_request m rules f = on_request_of m rules f f.request
