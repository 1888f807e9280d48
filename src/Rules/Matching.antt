-- ===== src/Rules/Matching.antt =====
-- internal/rules/engine.go: what `matches` and `evalCondition` mean.
use sniffy.Common.{
  ◌≡◌, ◌↔◌, refl, ◌⊎◌, inl, inr, Bool, true, false, not, List, [], ◌∷◌, Option, none, some, is_nil,
  All, arith, if◌then◌else◌, Bool-cases, Option-cases,
}
use sniffy.Common.Bytes.{Text, codes}
use sniffy.Flow.{Request, Response}
use sniffy.Rules.Types.{Condition, Rule}
use sniffy.Rules.Conditions.{
  Matchers, field_value, match_op, answer, eval_condition, conditions_loop, matches,
}

abbrev pub SomeOf : (Condition → Type 0) → List Condition → Type 0
SomeOf P [] = ⊥
SomeOf P (c ∷ cs) = P c ⊎ SomeOf P cs

module _ (m : Matchers) (q : Request) (r : Option Response) where
  abbrev pub Holds : Condition → Type 0
  Holds c = eval_condition m c q r ≡ true

  or_loop : (cs : List Condition) → (conditions_loop m true cs q r ≡ true) ↔ SomeOf Holds cs
  unfolding conditions_loop
  or_loop [] = ground arith
  or_loop (c ∷ cs) = elim (Bool-cases (eval_condition m c q r)) [
    | inl e ↦ ((λ _. inl e), λ _. rw e)
    | inr e ↦ rw e (
      (λ k. inr ((or_loop cs).0 k)),
      λ k. elim k [ inl h ↦ absurd cc | inr h ↦ (or_loop cs).1 h ],
    )
  ]

  and_loop : (cs : List Condition) → (conditions_loop m false cs q r ≡ true) ↔ All Holds cs
  unfolding conditions_loop
  and_loop [] = ((λ _. tt), λ _. refl)
  and_loop (c ∷ cs) = elim (Bool-cases (eval_condition m c q r)) [
    | inl e ↦ rw e ((λ k. (refl, (and_loop cs).0 k)), λ k. (and_loop cs).1 k.1)
    | inr e ↦ rw e ((λ k. absurd cc), λ k. absurd cc)
  ]

  loop_iff :
      (any : Bool) (cs : List Condition)
      → ((if is_nil cs then true else conditions_loop m any cs q r) ≡ true)
        ↔ ((cs ≡ []) ⊎ (((any ≡ true) × SomeOf Holds cs) ⊎ ((any ≡ false) × All Holds cs)))
  loop_iff any [] = ((λ _. inl refl), λ _. refl)
  loop_iff true (c ∷ cs) = (
    (λ k. inr (inl (refl, (or_loop (c ∷ cs)).0 k))),
    λ k. elim k [
      | inl bad ↦ absurd cc
      | inr (inl h) ↦ (or_loop (c ∷ cs)).1 h.1
      | inr (inr h) ↦ absurd (ground (arith, h.0))
    ],
  )
  loop_iff false (c ∷ cs) = (
    (λ k. inr (inr (refl, (and_loop (c ∷ cs)).0 k))),
    λ k. elim k [
      | inl bad ↦ absurd cc
      | inr (inl h) ↦ absurd (ground (arith, h.0))
      | inr (inr h) ↦ (and_loop (c ∷ cs)).1 h.1
    ],
  )

  -- A rule matches exactly when it has no conditions, or its operator is "or", in any case, and some
  -- condition holds, or its operator is another and all conditions hold.
  pub matches_iff :
      (rule : Rule)
      → let any = m.conv.equal_fold rule.logic_operator (codes "OR") in
        (matches m rule q r ≡ true) ↔ (
          (rule.conditions ≡ [])
          ⊎ (((any ≡ true) × SomeOf Holds rule.conditions)
              ⊎ ((any ≡ false) × All Holds rule.conditions)))
  unfolding matches
  matches_iff rule = loop_iff (m.conv.equal_fold rule.logic_operator (codes "OR")) rule.conditions

  field_value-negate :
      (c : Condition) (n : Bool) → field_value m (record c { negate = n }) q r ≡ field_value m c q r
  unfolding field_value
  field_value-negate c n = refl

  match_op-negate :
      (c : Condition) (n : Bool) (s : Text)
      → match_op m (record c { negate = n }) s ≡ match_op m c s
  unfolding match_op
  match_op-negate c n s = refl

  -- Negating a condition turns its answer around where the flow has the field, and only there: a
  -- condition on a response that has not come yet fails in both forms.
  pub eval_condition-negate :
      (c : Condition)
      → let negated = record c { negate = not c.negate } in
        ((field_value m c q r ≡ none)
          × (eval_condition m c q r ≡ false)
          × (eval_condition m negated q r ≡ false))
        ⊎ ((field : Text) × (field_value m c q r ≡ some field)
            × (eval_condition m negated q r ≡ not (eval_condition m c q r)))
  unfolding eval_condition answer
  eval_condition-negate c =
      rw (field_value-negate c (not c.negate)) (elim (Option-cases (field_value m c q r)) [
        | inl e ↦ inl (e, rw (e, answer), rw (e, answer))
        | inr (field, e) ↦ inr (
          field,
          e,
          rw (e, answer)
              (rw (match_op-negate c (not c.negate) field) (twice c.negate (match_op m c field))),
        )
      ])
    where
      twice : (n x : Bool) → (if not n then not x else x) ≡ not (if n then not x else x)
      twice n x = ground arith
