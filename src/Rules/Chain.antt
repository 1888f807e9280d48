-- ===== src/Rules/Chain.antt =====
-- internal/rules/engine.go: `OnRequest` rule by rule.
use sniffy.Common.{◌≡◌, refl, not, List, [], ◌∷◌, ◌++◌, Bool-cases, inl, inr}
use sniffy.Rules.Types.{Rule}
use sniffy.Rules.Conditions.{Matchers, matches}
use sniffy.Rules.Engine.{Editing, Outcome, goes_on, ends, and_then, request_actions, request_rules}

and_then_assoc :
    (o : Outcome) (k l : Editing → Outcome)
    → and_then (and_then o k) l ≡ and_then o (λ e. and_then (k e) l)
unfolding and_then
and_then_assoc (goes_on e) k l = refl
and_then_assoc (ends e d) k l = refl

-- Rules run on what the rules before them have left, unless one of those has ended the call: then
-- they neither run nor change the outcome.
pub request_rules-append :
    (m : Matchers) (xs ys : List Rule) (e : Editing)
    → request_rules m (xs ++ ys) e ≡ and_then (request_rules m xs e) (λ e'. request_rules m ys e')
unfolding request_rules
request_rules-append m [] ys e = unfold and_then in refl
request_rules-append m (r ∷ xs) ys e =
    elim (Bool-cases (not (matches m r e.request e.flow.response))) [
      | inl k ↦ rw k (request_rules-append m xs ys e)
      | inr k ↦
          rw
            (
              k,
              and_then_assoc (request_actions m r r.actions e) (λ e'. request_rules m xs e')
                  (λ e'. request_rules m ys e'),
            )
            (λ i.
              and_then (request_actions m r r.actions e) (λ e'. request_rules-append m xs ys e' i))
    ]
