-- ===== src/Rules/Responses.antt =====
-- internal/rules/engine.go: `OnResponse`, for a flow with a request, as there always is in this
-- stage; the engine reads the request without asking whether it is there.
use sniffy.Common.{
  ◌≡◌, refl, ap, sym, ◌∙◌, Bool, true, false, not, List, [], ◌∷◌, Option, none, some, if◌then◌else◌,
  if_elim,
}
use sniffy.Common.Int.{ℤ, is_pos}
use sniffy.Common.Bytes.{Text, text_eq, codes}
use sniffy.Flow.{Flow, Request, Response, Decision, continue_decision}
use sniffy.Rules.Values.{Conversions, get_str, get_int}
use sniffy.Rules.Types.{Rule, Action}
use sniffy.Rules.Sorted.{sorted_rules}
use sniffy.Rules.Conditions.{Matchers, matches}
use sniffy.Rules.HeaderOps.{Fields, apply_header_ops, apply_header_ops_keeps}
use sniffy.Rules.Edits.{apply_body_replace}

-- Whether the flow is marked, and its response.
pub record Answering : Type 0 where
  pub modified : Bool
  pub response : Response

status_edited : Answering → ℤ → Answering
status_edited e status =
    if is_pos status
    then record {
      modified = true;
      response = record e.response { status = status; status_text = [] };
    }
    else e

headers_set : Answering → Option Fields × Bool → Answering
headers_set e (h, changed) = record {
  modified = if changed then true else e.modified;
  response = record e.response { header = h };
}

body_set : Answering → Option Text → Answering
body_set e none = e
body_set e (some b) = record { modified = true; response = record e.response { body = b } }

unfoldable pub response_action : Conversions → Action → Answering → Answering
unfolding status_edited headers_set body_set
response_action c a e =
    let str = λ (key : Text). get_str c a.parameters key in
    let is = λ (name : Text). text_eq a.kind name in
    if is (codes "modify_status")
    then status_edited e (get_int c a.parameters (codes "statusCode"))
    else if is (codes "modify_response_headers")
    then headers_set e (apply_header_ops c e.response.header a.parameters (codes "responseHeaders"))
    else if is (codes "modify_response_body")
    then body_set e (
        apply_body_replace e.response.body (str (codes "responseBodyPattern"))
          (str (codes "responseBodyReplacement")))
    else e

unfoldable pub response_actions : Conversions → List Action → Answering → Answering
response_actions c [] e = e
response_actions c (a ∷ acts) e = response_actions c acts (response_action c a e)

unfoldable pub response_rules : Matchers → Request → List Rule → Answering → Answering
response_rules m q [] e = e
response_rules m q (r ∷ rs) e =
    if not (matches m r q (some e.response))
    then response_rules m q rs e
    else response_rules m q rs (response_actions m.conv r.actions e)

unfoldable pub answered : Flow → Answering → Flow × Decision
answered f e = (record f { modified = e.modified; response = some e.response }, continue_decision)

unfoldable pub on_response_of :
    Matchers → Option (List (Option Rule)) → Request → Flow → Option Response → Flow × Decision
on_response_of m rules q f none = (f, continue_decision)
on_response_of m rules q f (some r) =
    answered f
      (response_rules m q (sorted_rules rules) (record { modified = f.modified; response = r }))

-- `OnResponse`, with the flow's request.
unfoldable pub on_response :
    Matchers → Option (List (Option Rule)) → Request → Flow → Flow × Decision
on_response m rules q f = on_response_of m rules q f f.response

-- Without the mark, nothing is changed.
abbrev Quiet : Answering → Answering → Type 0
Quiet e e' = e'.modified ≡ false → e' ≡ e

Quiet-trans : (e₁ e₂ e₃ : Answering) → Quiet e₁ e₂ → Quiet e₂ e₃ → Quiet e₁ e₃
Quiet-trans e₁ e₂ e₃ p q m = q m ∙ p (ap (λ (e : Answering). e.modified) (sym (q m)) ∙ m)

headers_set-Quiet :
    (e : Answering) (out : Option Fields × Bool)
    → (out.1 ≡ false → out.0 ≡ e.response.header)
    → Quiet e (headers_set e out)
unfolding headers_set
headers_set-Quiet e (h, true) k m = absurd cc
headers_set-Quiet e (h, false) k m =
    ap (λ x. record e { response = record e.response { header = x } }) (k refl)

body_set-Quiet : (e : Answering) (o : Option Text) → Quiet e (body_set e o)
unfolding body_set
body_set-Quiet e none m = refl
body_set-Quiet e (some b) m = absurd cc

response_action-Quiet :
    (c : Conversions) (a : Action) (e : Answering) → Quiet e (response_action c a e)
unfolding response_action
response_action-Quiet c a e =
    if_elim (Quiet e) (text_eq a.kind (codes "modify_status")) _ _
      (λ _.
        unfold status_edited in
        if_elim (Quiet e) (is_pos (get_int c a.parameters (codes "statusCode"))) _ _
          (λ _ m. absurd cc) λ _ _. refl)
      λ _.
        if_elim (Quiet e) (text_eq a.kind (codes "modify_response_headers")) _ _
          (λ _.
            headers_set-Quiet e _
              (apply_header_ops_keeps c e.response.header a.parameters (codes "responseHeaders")))
          λ _.
            if_elim (Quiet e) (text_eq a.kind (codes "modify_response_body")) _ _
              (λ _. body_set-Quiet e _) λ _ _. refl

response_actions-Quiet :
    (c : Conversions) (acts : List Action) (e : Answering) → Quiet e (response_actions c acts e)
unfolding response_actions
response_actions-Quiet c [] e = λ _. refl
response_actions-Quiet c (a ∷ acts) e =
    Quiet-trans e (response_action c a e) _ (response_action-Quiet c a e)
      (response_actions-Quiet c acts (response_action c a e))

response_rules-Quiet :
    (m : Matchers) (q : Request) (rs : List Rule) (e : Answering)
    → Quiet e (response_rules m q rs e)
unfolding response_rules
response_rules-Quiet m q [] e = λ _. refl
response_rules-Quiet m q (r ∷ rs) e =
    if_elim (Quiet e) (not (matches m r q (some e.response))) _ _
      (λ _. response_rules-Quiet m q rs e)
      λ _.
        let e' = response_actions m.conv r.actions e in
        Quiet-trans e e' _ (response_actions-Quiet m.conv r.actions e)
          (response_rules-Quiet m q rs e')

on_response_of-unmodified :
    (m : Matchers) (rules : Option (List (Option Rule))) (q : Request) (f : Flow)
    (r : Option Response)
    → f.response ≡ r
    → (on_response_of m rules q f r).0.modified ≡ false
    → (on_response_of m rules q f r).0 ≡ f
unfolding on_response_of answered
on_response_of-unmodified m rules q f none e h = refl
on_response_of-unmodified m rules q f (some r) e h =
    let start : Answering = record { modified = f.modified; response = r } in
    ap (λ (a : Answering). record f { modified = a.modified; response = some a.response })
      (response_rules-Quiet m q (sorted_rules rules) start h)
    ∙ ap (λ x. record f { response = x }) (sym e)

-- Whatever the rules are and do, a response that they have changed in any way is marked as modified:
-- if the flow is not marked afterwards, it is as it was.
pub on_response-unmodified :
    (m : Matchers) (rules : Option (List (Option Rule))) (q : Request) (f : Flow)
    → (on_response m rules q f).0.modified ≡ false
    → (on_response m rules q f).0 ≡ f
unfolding on_response
on_response-unmodified m rules q f h = on_response_of-unmodified m rules q f f.response refl h
