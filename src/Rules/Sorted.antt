-- ===== src/Rules/Sorted.antt =====
-- internal/rules/engine.go: `sortedRules`. The sorted part of the slice is kept last element first,
-- since the inner loop walks it from its end.
use sniffy.Common.{
  ◌≡◌, refl, ap, ◌∙◌, inl, inr, List, [], ◌∷◌, Option, none, some, arith, if◌then◌else◌, if_elim,
  Bool-cases, All, select,
}
use sniffy.Common.Int.{ℤ, ltb_ℤ, ◌≤ℤ◌}
use sniffy.Common.Sort.{Ascending, SameByKey, at_key, eq_ℤ}
use sniffy.Rules.Types.{Rule}

-- The rules that are there and enabled.
unfoldable pub enabled_rules : List (Option Rule) → List Rule
enabled_rules [] = []
enabled_rules (none ∷ rs) = enabled_rules rs
enabled_rules (some r ∷ rs) = if r.enabled then r ∷ enabled_rules rs else enabled_rules rs

-- The inner loop: the new rule changes places while the one before it has a higher priority.
unfoldable pub sink : Rule → List Rule → List Rule
sink r [] = r ∷ []
sink r (p ∷ before) = if ltb_ℤ r.priority p.priority then p ∷ sink r before else r ∷ p ∷ before

unfoldable pub onto : List Rule → List Rule → List Rule
onto [] behind = behind
onto (r ∷ rs) behind = onto rs (r ∷ behind)

-- The outer loop.
unfoldable pub insertion_sort : List Rule → List Rule → List Rule
unfolding sink onto
insertion_sort sorted [] = onto sorted []
insertion_sort sorted (r ∷ rs) = insertion_sort (sink r sorted) rs

-- `sortedRules`; no provider gives no rules.
unfoldable pub sorted_rules : Option (List (Option Rule)) → List Rule
unfolding enabled_rules insertion_sort
sorted_rules none = []
sorted_rules (some all) = insertion_sort [] (enabled_rules all)

abbrev Descending : List Rule → Type 0
Descending [] = Unit
Descending (r ∷ rs) = All (λ s. s.priority ≤ℤ r.priority) rs × Descending rs

All-le :
    (a b : ℤ) (rs : List Rule)
    → a ≤ℤ b
    → All (λ s. s.priority ≤ℤ a) rs
    → All (λ s. s.priority ≤ℤ b) rs
All-le a b [] h all = tt
All-le a b (r ∷ rs) h all = (omega arith, All-le a b rs h all.1)

sink-All :
    (b : ℤ) (r : Rule) (rs : List Rule)
    → r.priority ≤ℤ b
    → All (λ s. s.priority ≤ℤ b) rs
    → All (λ s. s.priority ≤ℤ b) (sink r rs)
unfolding sink
sink-All b r [] h all = (h, tt)
sink-All b r (p ∷ rs) h all =
    if_elim (All (λ s. s.priority ≤ℤ b)) (ltb_ℤ r.priority p.priority) _ _
      (λ e. (all.0, sink-All b r rs h all.1)) (λ e. (h, all))

sink-Descending : (r : Rule) (rs : List Rule) → Descending rs → Descending (sink r rs)
unfolding sink
sink-Descending r [] d = (tt, tt)
sink-Descending r (p ∷ rs) d =
    if_elim Descending (ltb_ℤ r.priority p.priority) _ _
      (λ e. (sink-All p.priority r rs (ground arith) d.0, sink-Descending r rs d.1))
      (λ e.
        let h : p.priority ≤ℤ r.priority = ground arith in
        ((h, All-le p.priority r.priority rs h d.0), d))

onto-Ascending :
    (rs behind : List Rule)
    → Descending rs
    → Ascending (λ r. r.priority) behind
    → All (λ b. All (λ r. r.priority ≤ℤ b.priority) rs) behind
    → Ascending (λ r. r.priority) (onto rs behind)
unfolding onto
onto-Ascending [] behind d a h = a
onto-Ascending (r ∷ rs) behind d a h =
    onto-Ascending rs (r ∷ behind) d.1 (heads behind h, a) (d.0, tails behind h)
  where
    heads :
        (bs : List Rule)
        → All (λ b. All (λ s. s.priority ≤ℤ b.priority) (r ∷ rs)) bs
        → All (λ b. r.priority ≤ℤ b.priority) bs
    heads [] all = tt
    heads (b ∷ bs) all = (all.0.0, heads bs all.1)

    tails :
        (bs : List Rule)
        → All (λ b. All (λ s. s.priority ≤ℤ b.priority) (r ∷ rs)) bs
        → All (λ b. All (λ s. s.priority ≤ℤ b.priority) rs) bs
    tails [] all = tt
    tails (b ∷ bs) all = (all.0.1, tails bs all.1)

insertion_sort-Ascending :
    (sorted rs : List Rule)
    → Descending sorted
    → Ascending (λ r. r.priority) (insertion_sort sorted rs)
unfolding insertion_sort
insertion_sort-Ascending sorted [] d = onto-Ascending sorted [] d tt tt
insertion_sort-Ascending sorted (r ∷ rs) d =
    insertion_sort-Ascending (sink r sorted) rs (sink-Descending r sorted d)

module _ (k : ℤ) where
  picked : List Rule → List Rule
  picked rs = at_key (λ r. r.priority) k rs

  sink-picked : (r : Rule) (rs : List Rule) → picked (sink r rs) ≡ picked (r ∷ rs)
  unfolding sink picked
  sink-picked r [] = refl
  sink-picked r (p ∷ rs) =
      if_elim (λ out. picked out ≡ picked (r ∷ p ∷ rs)) (ltb_ℤ r.priority p.priority) _ _
        (λ e. ground (arith, sink-picked r rs)) (λ e. refl)

  onto-picked : (rs behind : List Rule) → picked (onto rs behind) ≡ onto (picked rs) (picked behind)
  unfolding onto picked
  onto-picked [] behind = refl
  onto-picked (r ∷ rs) behind =
      onto-picked rs (r ∷ behind)
      ∙ elim (Bool-cases (eq_ℤ r.priority k)) [ inl e ↦ rw e | inr e ↦ rw e ]

  insertion_sort-picked :
      (sorted rs : List Rule) → picked (insertion_sort sorted rs) ≡ onto (picked sorted) (picked rs)
  unfolding insertion_sort picked
  insertion_sort-picked sorted [] = onto-picked sorted []
  insertion_sort-picked sorted (r ∷ rs) =
      insertion_sort-picked (sink r sorted) rs
      ∙ ap (λ s. onto s (picked rs)) (sink-picked r sorted)
      ∙ elim (Bool-cases (eq_ℤ r.priority k)) [ inl e ↦ rw (e, onto) | inr e ↦ rw e ]

-- The rules that are there.
abbrev pub present : List (Option Rule) → List Rule
present [] = []
present (none ∷ rs) = present rs
present (some r ∷ rs) = r ∷ present rs

enabled_rules-select :
    (all : List (Option Rule)) → enabled_rules all ≡ select (λ r. r.enabled) (present all)
unfolding enabled_rules
enabled_rules-select [] = refl
enabled_rules-select (none ∷ rs) = enabled_rules-select rs
enabled_rules-select (some r ∷ rs) = ground (arith, enabled_rules-select rs)

-- The engine goes through exactly the enabled rules, by rising priority, and those of one priority
-- in the order of the store.
pub sorted_rules-Ascending :
    (all : List (Option Rule))
    → Ascending (λ r. r.priority) (sorted_rules (some all))
      × SameByKey
          (λ r. r.priority)
          (sorted_rules (some all))
          (select (λ r. r.enabled) (present all))
unfolding sorted_rules
sorted_rules-Ascending all = (
  insertion_sort-Ascending [] (enabled_rules all) tt,
  λ k.
      unfold picked onto in
      insertion_sort-picked k [] (enabled_rules all)
      ∙ ap (at_key (λ r. r.priority) k) (enabled_rules-select all),
)
