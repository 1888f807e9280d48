-- ===== src/BodyCache/Accounts.antt =====
-- internal/bodycache/bodycache.go: the books of the cache agree, and stay within the budget.
use sniffy.Common.{
  ℕ, ◌+◌, ◌-◌, ◌≤◌, ◌≡◌, ◌≢◌, refl, ap, subst, ◌∙◌, inl, inr, List, [], ◌∷◌, ◌++◌, some, arith, ltb,
  if_elim, Bool-cases, Option-cases, All,
}
use mathlib.Core.List.{map-append}
use sniffy.Common.Bytes.{Text, text_eq, text_eq_iff}
use sniffy.Common.Dict.{lookup, insert, remove}
use sniffy.Common.Keys.{
  keys, Distinct, Distinct-snoc, remove_absent, remove_head, insert_absent, lookup_absent,
}
use sniffy.BodyCache.Store.{
  Cache, size_of, evict, Evicted, evict_locked, drop_path, forget_locked, enter_copy,
}

abbrev pub sum : List (Text × ℕ) → ℕ
sum [] = 0
sum (e ∷ m) = e.1 + sum m

-- The order lists each committed path once, oldest first, and the total is the sum of the sizes.
pub record Balanced (order : List Text) (sizes : List (Text × ℕ)) (total : ℕ) : Type 0 where
  pub listed : keys sizes ≡ order
  pub distinct : Distinct (keys sizes)
  pub summed : total ≡ sum sizes

abbrev pub IsBalanced : Cache → Type 0
IsBalanced c = Balanced c.order c.sizes c.total

pub size_of_head : (k : Text) (v : ℕ) (m : List (Text × ℕ)) → size_of k ((k, v) ∷ m) ≡ v
unfolding size_of lookup
size_of_head k v m = ground (arith, text_eq_iff k k)

-- What evicting gives, from books that agree.
pub record EvictedWell (budget : ℕ) (order : List Text) (e : Evicted) : Type 0 where
  pub balanced : Balanced e.order e.sizes e.total
  pub within : e.total ≤ budget
  pub oldest_first : e.stale ++ e.order ≡ order

evict-head :
    (budget v : ℕ) (k : Text) (m : List (Text × ℕ)) (order : List Text) (total : ℕ)
    → Balanced (k ∷ order) ((k, v) ∷ m) total
    → EvictedWell budget order (evict budget order m (total - v))
    → EvictedWell budget (k ∷ order) (evict budget (k ∷ order) ((k, v) ∷ m) total)
unfolding evict
evict-head budget v k m order total b ih =
    rw (remove_head k v m b.distinct.0, size_of_head k v m)
      (if_elim (EvictedWell budget (k ∷ order)) (ltb budget total) _ _
        (λ over. record {
          balanced = ih.balanced;
          within = ih.within;
          oldest_first = ap (◌∷◌ k) ih.oldest_first;
        })
        λ fits. record { balanced = b; within = ground arith; oldest_first = refl })

-- Evicting keeps the books, comes within the budget, and takes the oldest copies.
pub evict-EvictedWell :
    (budget : ℕ) (sizes : List (Text × ℕ)) (order : List Text) (total : ℕ)
    → Balanced order sizes total
    → EvictedWell budget order (evict budget order sizes total)
evict-EvictedWell budget [] [] total b = record {
  balanced = unfold evict in b;
  within = unfold evict in omega (arith, b.summed);
  oldest_first = unfold evict in refl;
}
evict-EvictedWell budget [] (p ∷ order) total b = absurd (ground (arith, b.listed))
evict-EvictedWell budget ((k, v) ∷ m) [] total b = absurd (ground (arith, b.listed))
evict-EvictedWell budget ((k, v) ∷ m) (p ∷ order) total b =
    subst (λ (ps : List Text). EvictedWell budget ps (evict budget ps ((k, v) ∷ m) total)) b.listed
      (evict-head budget v k m (keys m) total
        (record { listed = refl; distinct = b.distinct; summed = b.summed })
        (evict-EvictedWell budget m (keys m) (total - v)
          (record { listed = refl; distinct = b.distinct.1; summed = omega (arith, b.summed) })))

abbrev pub IsWithin : Cache → Type 0
IsWithin c = c.total ≤ c.budget

pub record IsSound (c : Cache) : Type 0 where
  pub balanced : IsBalanced c
  pub within : IsWithin c

pub evict_locked-IsSound : (c : Cache) → IsBalanced c → IsSound (evict_locked c).0
unfolding evict_locked
evict_locked-IsSound c b =
    let e = evict-EvictedWell c.budget c.sizes c.order c.total b in
    record { balanced = e.balanced; within = e.within }

-- A known path keeps its place, and the sum changes by the difference.
insert_known :
    (k : Text) (v old : ℕ) (m : List (Text × ℕ))
    → lookup k m ≡ some old
    → (keys (insert k v m) ≡ keys m) × (sum (insert k v m) + old ≡ sum m + v)
unfolding insert lookup
insert_known k v old [] h = cc
insert_known k v old ((j, w) ∷ m) h = elim (Bool-cases (text_eq j k)) [
  | inl e ↦ ground (arith, text_eq_iff j k)
  | inr e ↦ ground (arith, insert_known k v old m)
]

remove_known :
    (k : Text) (old : ℕ) (m : List (Text × ℕ))
    → Distinct (keys m)
    → lookup k m ≡ some old
    → (keys (remove k m) ≡ drop_path k (keys m)) × (sum (remove k m) + old ≡ sum m)
unfolding lookup drop_path
remove_known k old [] d h = cc
remove_known k old ((j, w) ∷ m) d h = elim (Bool-cases (text_eq j k)) [
  | inl e ↦
      let a = subst (λ q. All (λ x. x ≢ q) (keys m)) ((text_eq_iff j k).0 e) d.0 in
      let r : remove k ((j, w) ∷ m) ≡ m = unfold remove in ground (arith, remove_absent k m a) in
      (ground (arith, r), ground (arith, r))
  | inr e ↦
      let ih = remove_known k old m d.1 (ground arith) in
      let r : remove k ((j, w) ∷ m) ≡ (j, w) ∷ remove k m = unfold remove in rw e in
      (ground (arith, r, ih.0), ground (arith, r, ih.1))
]

All-drop_path : (P : Text → Type 0) (k : Text) (ps : List Text) → All P ps → All P (drop_path k ps)
unfolding drop_path
All-drop_path P k [] a = tt
All-drop_path P k (p ∷ ps) a =
    if_elim (All P) (text_eq p k) _ _ (λ _. a.1) (λ _. (a.0, All-drop_path P k ps a.1))

Distinct-drop_path : (k : Text) (ps : List Text) → Distinct ps → Distinct (drop_path k ps)
unfolding drop_path
Distinct-drop_path k [] d = tt
Distinct-drop_path k (p ∷ ps) d =
    if_elim Distinct (text_eq p k) _ _ (λ _. d.1)
      (λ _. (All-drop_path (λ q. q ≢ p) k ps d.0, Distinct-drop_path k ps d.1))

sum-append : (m n : List (Text × ℕ)) → sum (m ++ n) ≡ sum m + sum n
sum-append [] n = omega arith
sum-append (e ∷ m) n = omega (arith, sum-append m n)

-- So no size that is taken off the total is larger than it.
lookup-le-sum : (k : Text) (v : ℕ) (m : List (Text × ℕ)) → lookup k m ≡ some v → v ≤ sum m
unfolding lookup
lookup-le-sum k v [] h = cc
lookup-le-sum k v ((j, w) ∷ m) h = ground (arith, lookup-le-sum k v m)

pub enter_copy-IsBalanced :
    (c : Cache) (path : Text) (size : ℕ) → IsBalanced c → IsBalanced (enter_copy c path size)
unfolding enter_copy
enter_copy-IsBalanced c path size b = elim (Option-cases (lookup path c.sizes)) [
  | inl e ↦
      let i = insert_absent path size c.sizes e in
      rw (e, enter_copy)
        (rw i (record {
          listed =
              map-append (λ e. e.0) c.sizes ((path, size) ∷ [])
              ∙ ap (λ ps. ps ++ path ∷ []) b.listed;
          distinct =
              rw (map-append (λ (e : Text × ℕ). e.0) c.sizes ((path, size) ∷ []))
                (Distinct-snoc path (keys c.sizes) (lookup_absent path c.sizes e) b.distinct);
          summed = omega (arith, sum-append c.sizes ((path, size) ∷ []), b.summed);
        }))
  | inr (old, e) ↦
      let (ps, total) = insert_known path size old c.sizes e in
      rw (e, enter_copy)
        (record {
          listed = ps ∙ b.listed;
          distinct = rw ps b.distinct;
          summed = omega (arith, total, b.summed, lookup-le-sum path old c.sizes e);
        })
]

pub forget_locked-IsSound : (c : Cache) (path : Text) → IsSound c → IsSound (forget_locked c path)
unfolding forget_locked
forget_locked-IsSound c path v = elim (Option-cases (lookup path c.sizes)) [
  | inl e ↦ rw (e, forget_locked) v
  | inr (old, e) ↦
      let (ps, total) = remove_known path old c.sizes v.balanced.distinct e in
      rw (e, forget_locked)
        (record {
          balanced = record {
            listed = ps ∙ ap (drop_path path) v.balanced.listed;
            distinct = rw ps (Distinct-drop_path path (keys c.sizes) v.balanced.distinct);
            summed = omega (arith, total, v.balanced.summed);
          };
          within = omega (arith, v.within);
        })
]

-- A change of the cache: every method that touches the books.
