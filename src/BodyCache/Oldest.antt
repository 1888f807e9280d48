-- ===== src/BodyCache/Oldest.antt =====
-- internal/bodycache/bodycache.go: evicting takes no more copies than the budget asks for.
use sniffy.Common.{
  ℕ, ◌+◌, ◌-◌, ◌<◌, ◌≡◌, refl, sym, ap, subst, ◌∙◌, List, [], ◌∷◌, ◌++◌, arith, ltb, if_elim,
}
use sniffy.Common.Bytes.{Text}
use sniffy.Common.Keys.{keys, remove_head}
use sniffy.BodyCache.Store.{evict, Evicted}
use sniffy.BodyCache.Accounts.{sum, Balanced, size_of_head}

-- The copies that go are the first of the books, and without the last of them the rest would not fit.
pub record Fewest (budget : ℕ) (sizes : List (Text × ℕ)) (e : Evicted) : Type 0 where
  pub gone : List (Text × ℕ)
  pub split : gone ++ e.sizes ≡ sizes
  pub stale : keys gone ≡ e.stale
  pub needed :
      (before : List (Text × ℕ)) (last : Text × ℕ)
      → gone ≡ before ++ last ∷ []
      → budget < last.1 + sum e.sizes

nothing_gone :
    (budget : ℕ) (sizes : List (Text × ℕ)) (order : List Text) (total : ℕ)
    → Fewest budget sizes (record { order = order; sizes = sizes; total = total; stale = [] })
nothing_gone budget sizes order total = record {
  gone = [];
  split = refl;
  stale = refl;
  needed = λ before last e. absurd (none_last before last e);
}
  where
    none_last : (before : List (Text × ℕ)) (last : Text × ℕ) → [] ≡ before ++ last ∷ [] → ⊥
    none_last [] last e = cc
    none_last (b ∷ before) last e = cc

one_more :
    (budget : ℕ) (kv : Text × ℕ) (m : List (Text × ℕ)) (e : Evicted)
    → budget < kv.1 + sum m
    → Fewest budget m e
    → Fewest budget (kv ∷ m) (record e { stale = kv.0 ∷ e.stale })
one_more budget kv m e over f = record {
  gone = kv ∷ f.gone;
  split = ap (◌∷◌ kv) f.split;
  stale = ap (◌∷◌ kv.0) f.stale;
  needed = needed;
}
  where
    needed :
        (before : List (Text × ℕ)) (last : Text × ℕ)
        → kv ∷ f.gone ≡ before ++ last ∷ []
        → budget < last.1 + sum e.sizes
    needed [] last h =
        let k : kv ≡ last = cc in
        let g : f.gone ≡ [] = cc in
        let s : e.sizes ≡ m = ap (λ xs. xs ++ e.sizes) (sym g) ∙ f.split in
        omega (arith, over, ap (λ x. x.1) k, ap sum s)
    needed (b ∷ before) last h = f.needed before last cc

evict_one :
    (budget v : ℕ) (k : Text) (m : List (Text × ℕ)) (order : List Text) (total : ℕ)
    → Balanced (k ∷ order) ((k, v) ∷ m) total
    → Fewest budget m (evict budget order m (total - v))
    → Fewest budget ((k, v) ∷ m) (evict budget (k ∷ order) ((k, v) ∷ m) total)
unfolding evict
evict_one budget v k m order total b ih =
    rw (remove_head k v m b.distinct.0, size_of_head k v m)
      (if_elim (Fewest budget ((k, v) ∷ m)) (ltb budget total) _ _
        (λ over. one_more budget (k, v) m _ (ground (arith, b.summed)) ih)
        λ fits. nothing_gone budget ((k, v) ∷ m) (k ∷ order) total)

pub evict-Fewest :
    (budget : ℕ) (sizes : List (Text × ℕ)) (order : List Text) (total : ℕ)
    → Balanced order sizes total
    → Fewest budget sizes (evict budget order sizes total)
evict-Fewest budget [] [] total b = unfold evict in nothing_gone budget [] [] total
evict-Fewest budget [] (p ∷ order) total b = absurd (ground (arith, b.listed))
evict-Fewest budget ((k, v) ∷ m) [] total b = absurd (ground (arith, b.listed))
evict-Fewest budget ((k, v) ∷ m) (p ∷ order) total b =
    subst (λ (ps : List Text). Fewest budget ((k, v) ∷ m) (evict budget ps ((k, v) ∷ m) total))
      b.listed
      (evict_one budget v k m (keys m) total
        (record { listed = refl; distinct = b.distinct; summed = b.summed })
        (evict-Fewest budget m (keys m) (total - v)
          (record { listed = refl; distinct = b.distinct.1; summed = omega (arith, b.summed) })))
