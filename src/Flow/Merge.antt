-- ===== src/Flow/Merge.antt =====
-- internal/flow/decision.go: `Merge` picks the first of the strongest decisions.
use sniffy.Common.{
  ℕ, ◌≤◌, ◌<◌, ◌≡◌, refl, sym, ap, subst, ◌⊎◌, inl, inr, List, [], ◌∷◌, ◌++◌, All, arith, ltb,
  Bool-cases,
}
use sniffy.Flow.Decide.{Decision, priority, merge}

-- The left fold that the pipeline's loops compute.
unfoldable pub merge_all : Decision → List Decision → Decision
merge_all acc [] = acc
merge_all acc (d ∷ ds) = merge_all (merge acc d) ds

abbrev pub strength : Decision → ℕ
strength d = priority d.kind

-- `r` stands in `acc ∷ ds`; what is before it is weaker, and nothing behind it is stronger.
abbrev pub IsFirstStrongest : Decision → List Decision → Decision → Type 0
IsFirstStrongest acc ds r =
    ((r ≡ acc) × All (λ d. strength d ≤ strength r) ds)
    ⊎ ((before after : List Decision) × (ds ≡ before ++ r ∷ after)
        × (strength acc < strength r)
        × All (λ d. strength d < strength r) before
        × All (λ d. strength d ≤ strength r) after)

merge-cases :
    (acc d : Decision)
    → ((merge acc d ≡ d) × (strength acc < strength d))
      ⊎ ((merge acc d ≡ acc) × (strength d ≤ strength acc))
unfolding merge
merge-cases acc d = elim (Bool-cases (ltb (strength acc) (strength d))) [
  | inl e ↦ inl (rw e, ground arith)
  | inr e ↦ inr (rw e, ground arith)
]

module _ {acc d : Decision} {ds : List Decision} (r : Decision) where
  stronger_step :
      strength acc < strength d → IsFirstStrongest d ds r → IsFirstStrongest acc (d ∷ ds) r
  stronger_step lt (inl (e, a)) = inr ([], ds, ap (λ x. x ∷ ds) (sym e), rw e lt, tt, a)
  stronger_step lt (inr (before, after, e, lt', b, a)) =
      inr (d ∷ before, after, ap (◌∷◌ d) e, omega arith, (lt', b), a)

  weaker_step :
      strength d ≤ strength acc → IsFirstStrongest acc ds r → IsFirstStrongest acc (d ∷ ds) r
  weaker_step le (inl (e, a)) = inl (e, (rw e le, a))
  weaker_step le (inr (before, after, e, lt, b, a)) =
      inr (d ∷ before, after, ap (◌∷◌ d) e, lt, (omega arith, b), a)

-- Merging any list of decisions into an accumulator gives the first of the strongest ones: a later
-- decision wins only if it is strictly stronger.
pub merge_all-IsFirstStrongest :
    (acc : Decision) (ds : List Decision) → IsFirstStrongest acc ds (merge_all acc ds)
unfolding merge_all
merge_all-IsFirstStrongest acc [] = inl (refl, tt)
merge_all-IsFirstStrongest acc (d ∷ ds) =
    let ih = merge_all-IsFirstStrongest (merge acc d) ds in
    elim (merge-cases acc d) [
      | inl (e, lt) ↦
          stronger_step _ lt (subst (λ m. IsFirstStrongest m ds (merge_all (merge acc d) ds)) e ih)
      | inr (e, le) ↦
          weaker_step _ le (subst (λ m. IsFirstStrongest m ds (merge_all (merge acc d) ds)) e ih)
    ]

-- Merging is associative, so the grouping of the hooks does not matter.
pub merge_assoc : (a b c : Decision) → merge (merge a b) c ≡ merge a (merge b c)
unfolding merge
merge_assoc a b c = ground arith
