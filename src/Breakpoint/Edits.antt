-- ===== src/Breakpoint/Edits.antt =====
-- internal/pipeline/breakpoint.go: adding, changing and deleting breakpoint rules.
use sniffy.Common.{
  ◌≡◌, ◌≢◌, refl, ◌⊎◌, inl, inr, Bool, List, [], ◌∷◌, Option, none, some, arith, if◌then◌else◌,
  Bool-cases,
}
use sniffy.Common.Bytes.{Text, text_eq, text_eq_iff}
use sniffy.Breakpoint.State.{
  Manager, BreakRule, change_first, with_rules, edit, update_rule_fields, toggle_rule,
}

-- The rule that an ID names: the first that has it.
unfoldable pub find : Text → List BreakRule → Option BreakRule
find id [] = none
find id (r ∷ rs) = if text_eq r.id id then some r else find id rs

-- A change of the rule named `id` by `g`: it is made and returned, or there is no such rule and
-- nothing is changed. No other rule is affected, nor any other field of the manager.
abbrev pub Changed : Manager → Text → (BreakRule → BreakRule) → Manager × Option BreakRule → Type 0
Changed b id g out =
    (((r : BreakRule) × (find id b.rules ≡ some r)
        × (out.1 ≡ some (g r))
        × (find id out.0.rules ≡ some (g r)))
      ⊎ ((find id b.rules ≡ none) × (out.1 ≡ none) × (out.0 ≡ b)))
    × ((j : Text) → j ≢ id → find j out.0.rules ≡ find j b.rules)
    × (record out.0 { rules = b.rules } ≡ b)

record FirstChanged (id : Text) (g : BreakRule → BreakRule) (rs : List BreakRule)
    (out : Option (List BreakRule × BreakRule)) : Type 0 where
  made :
      ((r : BreakRule) × (rs' : List BreakRule) × (find id rs ≡ some r)
        × (out ≡ some (rs', g r))
        × (find id rs' ≡ some (g r))
        × ((j : Text) → j ≢ id → find j rs' ≡ find j rs))
      ⊎ ((find id rs ≡ none) × (out ≡ none))

change_first-FirstChanged :
    (id : Text) (g : BreakRule → BreakRule)
    → ((r : BreakRule) → (g r).id ≡ r.id)
    → (rs : List BreakRule) → FirstChanged id g rs (change_first id g rs)
unfolding change_first find
change_first-FirstChanged id g keeps [] = record { made = inr (refl, refl) }
change_first-FirstChanged id g keeps (r ∷ rs) = elim (Bool-cases (text_eq r.id id)) [
  | inl e ↦ record {
    made = inl (
      r,
      g r ∷ rs,
      ground arith,
      ground arith,
      ground (arith, keeps r),
      λ j n. ground (arith, keeps r, text_eq_iff r.id id, text_eq_iff r.id j),
    );
  }
  | inr e ↦ elim (change_first-FirstChanged id g keeps rs).made [
    | inl (r', rs', f, o, f', other) ↦ record {
      made = inl (
        r',
        r ∷ rs',
        ground (arith, f),
        ground (arith, o),
        ground (arith, f'),
        λ j n. ground (arith, other j n),
      );
    }
    | inr (f, o) ↦ record { made = inr (ground (arith, f), ground (arith, o)) }
  ]
]

with_rules-Changed :
    (b : Manager) (id : Text) (g : BreakRule → BreakRule)
    → ((r : BreakRule) → (g r).id ≡ r.id)
    → Changed b id g (with_rules b (change_first id g b.rules))
unfolding with_rules
with_rules-Changed b id g keeps = elim (change_first-FirstChanged id g keeps b.rules).made [
  | inl (r, rs', f, o, f', other) ↦ rw (o, with_rules) (inl (r, f, refl, f'), other, refl)
  | inr (f, o) ↦ rw (o, with_rules) (inr (f, refl, refl), (λ j n. refl), refl)
]

-- Editing a rule's fields, and switching it on or off, change exactly the rule with the ID, and
-- return it as it is afterwards; an unknown ID is reported and changes nothing.
pub rule_edits-Changed :
    (b : Manager) (id url : Text) (on_req on_resp : Bool) (enabled : Option Bool) (on : Bool)
    → Changed b id
        (edit url on_req on_resp enabled)
        (update_rule_fields b id url on_req on_resp enabled)
      × Changed b id (λ r. record r { enabled = on }) (toggle_rule b id on)
unfolding update_rule_fields toggle_rule
rule_edits-Changed b id url on_req on_resp enabled on = (
  with_rules-Changed b id (edit url on_req on_resp enabled) (λ r. unfold edit in refl),
  with_rules-Changed b id (λ r. record r { enabled = on }) (λ r. refl),
)
