-- ===== src/Rules/Quiet.antt =====
-- internal/rules/engine.go: the mark on a flow that a rule has changed.
use sniffy.Common.{
  ◌≡◌, refl, ap, sym, ◌∙◌, Bool, true, false, not, List, [], ◌∷◌, Option, none, some, if_elim,
}
use sniffy.Common.Bytes.{text_eq, codes}
use sniffy.Flow.{Flow, Request}
use sniffy.Rules.Types.{Rule, Action}
use sniffy.Rules.Sorted.{sorted_rules}
use sniffy.Rules.Values.{Conversions, Object}
use sniffy.Rules.Conditions.{Matchers, matches}
use sniffy.Rules.HeaderOps.{Fields, apply_header_ops_keeps}
use sniffy.Rules.Engine.{
  Editing, Outcome, goes_on, ends, edited, headers_edited, request_action, and_then,
  request_actions, request_rules, finished, final_flow, on_request_of, on_request,
}

-- Without the mark, the flow and its request are as before.
abbrev Quiet : Editing → Editing → Type 0
Quiet e e' = e'.flow.modified ≡ false → (e'.flow ≡ e.flow) × (e'.request ≡ e.request)

abbrev state_of : Outcome → Editing
state_of (goes_on e) = e
state_of (ends e d) = e

Quiet-trans : (e₁ e₂ e₃ : Editing) → Quiet e₁ e₂ → Quiet e₂ e₃ → Quiet e₁ e₃
Quiet-trans e₁ e₂ e₃ p q m =
    let s = q m in let r = p (ap (λ (f : Flow). f.modified) (sym s.0) ∙ m) in (s.0 ∙ r.0, s.1 ∙ r.1)

edited-Quiet : (e : Editing) (o : Option Request) → Quiet e (edited e o)
unfolding edited
edited-Quiet e none m = (refl, refl)
edited-Quiet e (some q) m = absurd cc

headers_edited-Quiet :
    (c : Conversions) (params : Object) (e : Editing) (out : Option Fields × Bool)
    → (out.1 ≡ false → out.0 ≡ e.request.header)
    → Quiet e (headers_edited c params e out)
unfolding headers_edited edited
headers_edited-Quiet c params e (h, true) k m = absurd cc
headers_edited-Quiet c params e (h, false) k m =
    (refl, ap (λ x. record e.request { header = x }) (k refl))

request_action-Quiet :
    (m : Matchers) (r : Rule) (a : Action) (e : Editing)
    → Quiet e (state_of (request_action m r a e))
unfolding request_action
request_action-Quiet m r a e =
    let P : Outcome → Type 0 = λ o. Quiet e (state_of o) in
    if_elim P (text_eq a.kind (codes "block")) _ _ (λ _ _. (refl, refl))
      λ _.
        if_elim P (text_eq a.kind (codes "auto_respond")) _ _ (λ _ q. absurd cc)
          λ _.
            if_elim P (text_eq a.kind (codes "redirect")) _ _ (λ _. edited-Quiet e _)
              λ _.
                if_elim P (text_eq a.kind (codes "modify_url")) _ _ (λ _. edited-Quiet e _)
                  λ _.
                    if_elim P (text_eq a.kind (codes "modify_method")) _ _ (λ _. edited-Quiet e _)
                      λ _.
                        if_elim P (text_eq a.kind (codes "modify_headers")) _ _
                          (λ _. headers_edited-Quiet m.conv a.parameters e _ (
                            apply_header_ops_keeps m.conv e.request.header a.parameters
                              (codes "headers")))
                          λ _.
                            if_elim P (text_eq a.kind (codes "modify_body")) _ _
                              (λ _. edited-Quiet e _)
                              λ _.
                                if_elim P (text_eq a.kind (codes "replace_body")) _ _
                                  (λ _. edited-Quiet e _)
                                  λ _.
                                    if_elim P (text_eq a.kind (codes "delay")) _ _
                                      (λ _ _. (refl, refl)) λ _ _. (refl, refl)

and_then-Quiet :
    (e : Editing) (o : Outcome) (k : Editing → Outcome)
    → Quiet e (state_of o)
    → ((e' : Editing) → Quiet e' (state_of (k e')))
    → Quiet e (state_of (and_then o k))
unfolding and_then
and_then-Quiet e (goes_on e') k p q = Quiet-trans e e' (state_of (k e')) p (q e')
and_then-Quiet e (ends e' d) k p q = p

request_actions-Quiet :
    (m : Matchers) (r : Rule) (acts : List Action) (e : Editing)
    → Quiet e (state_of (request_actions m r acts e))
unfolding request_actions
request_actions-Quiet m r [] e = λ _. (refl, refl)
request_actions-Quiet m r (a ∷ acts) e =
    and_then-Quiet e (request_action m r a e) (λ e'. request_actions m r acts e')
      (request_action-Quiet m r a e) (λ e'. request_actions-Quiet m r acts e')

request_rules-Quiet :
    (m : Matchers) (rs : List Rule) (e : Editing) → Quiet e (state_of (request_rules m rs e))
unfolding request_rules
request_rules-Quiet m [] e = λ _. (refl, refl)
request_rules-Quiet m (r ∷ rs) e =
    if_elim (λ o. Quiet e (state_of o)) (not (matches m r e.request e.flow.response)) _ _
      (λ _. request_rules-Quiet m rs e)
      λ _.
        and_then-Quiet e (request_actions m r r.actions e) (λ e'. request_rules m rs e')
          (request_actions-Quiet m r r.actions e) (λ e'. request_rules-Quiet m rs e')

kept :
    (f : Flow) (q : Request) (e : Editing)
    → f.request ≡ some q
    → (e.flow ≡ f) × (e.request ≡ q)
    → final_flow e ≡ f
unfolding final_flow
kept f q e r h =
    (λ i. record (h.0 i) { request = some (h.1 i) }) ∙ ap (λ x. record f { request = x }) (sym r)

finished-Quiet :
    (f : Flow) (q : Request) (o : Outcome)
    → f.request ≡ some q
    → Quiet (record { flow = f; request = q; slept = 0 }) (state_of o)
    → (finished o).0.modified ≡ false
    → (finished o).0 ≡ f
unfolding finished
finished-Quiet f q (goes_on e) r h m = kept f q e r (h m)
finished-Quiet f q (ends e d) r h m = kept f q e r (h m)

on_request_of-unmodified :
    (m : Matchers) (rules : Option (List (Option Rule))) (f : Flow) (q : Option Request)
    → f.request ≡ q
    → (on_request_of m rules f q).0.modified ≡ false
    → (on_request_of m rules f q).0 ≡ f
unfolding on_request_of
on_request_of-unmodified m rules f none r h = refl
on_request_of-unmodified m rules f (some q) r h =
    let e : Editing = record { flow = f; request = q; slept = 0 } in
    finished-Quiet f q (request_rules m (sorted_rules rules) e) r
      (request_rules-Quiet m (sorted_rules rules) e) h

-- Whatever the rules are and do, a request that they have changed in any way, or answered, is marked
-- as modified: if the flow is not marked afterwards, it is as it was.
pub on_request-unmodified :
    (m : Matchers) (rules : Option (List (Option Rule))) (f : Flow)
    → (on_request m rules f).0.modified ≡ false
    → (on_request m rules f).0 ≡ f
unfolding on_request
on_request-unmodified m rules f h = on_request_of-unmodified m rules f f.request refl h
