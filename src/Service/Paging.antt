-- ===== src/Service/Paging.antt =====
-- internal/service/sessions.go: the pages of a store, newest first.
use sniffy.Common.{
  ℕ, zero, suc, ◌-◌, ◌≤◌, ◌≡◌, refl, ap, ◌∙◌, inl, inr, Bool-cases, List, [], ◌∷◌, ◌++◌, map, some,
  arith, leb, length, take, drop, reverse, All, All-take, All-reverse, map-take, map-reverse,
  length-map, reverse-snoc, reverse-take, ◌≢◌,
}
use sniffy.Common.Int.{ℤ}
use sniffy.Common.Bytes.{Text, text_eq_iff}
use sniffy.Common.Dict.{lookup}
use sniffy.Common.Keys.{keys, Distinct}
use sniffy.Service.Pages.{page_bounds, page_bounds-le}
use sniffy.Service.Sessions.{get_elem?, found, down_to, entries, page_of, list}
use sniffy.Service.Window.{Window, store_of, IsWindow}

-- The index is within the list: no panic.
take-suc :
    (i : ℕ) (xs : List Text)
    → suc i ≤ length xs
    → (x : Text) × (get_elem? xs i ≡ some x) × (take (suc i) xs ≡ take i xs ++ x ∷ [])
unfolding get_elem?
take-suc zero (x ∷ xs) h = (x, refl, refl)
take-suc (suc i) (x ∷ xs) h = let (y, e, t) = take-suc i xs (omega arith) in (y, e, ap (◌∷◌ x) t)
take-suc zero [] h = absurd (omega arith)
take-suc (suc i) [] h = absurd (omega arith)

down_to-take :
    (low i : ℕ) (order : List Text)
    → i ≤ length order
    → down_to low i order ≡ some (take (i - low) (reverse (take i order)))
unfolding down_to
down_to-take low zero order h = let e : 0 - low ≡ 0 = omega arith in rw e
down_to-take low (suc i) order h =
    let (x, e, t) = take-suc i order h in
    let ih = down_to-take low i order (omega arith) in
    elim (Bool-cases (leb low i)) [
      | inl le ↦
          let s : suc i - low ≡ suc (i - low) = ground arith in
          rw (le, e, ih, t, reverse-snoc (take i order) x, s)
      | inr gt ↦ let s : suc i - low ≡ 0 = ground arith in rw (gt, s)
    ]

module _ {V : Type 0} where
  -- An entry is found under its key.
  Found : List (Text × V) → Text × V → Type 0
  Found m e = lookup e.0 m ≡ some e.1

  All-Found-skip :
      (k : Text) (v : V) (m l : List (Text × V))
      → All (λ q. q ≢ k) (keys l)
      → All (Found m) l
      → All (Found ((k, v) ∷ m)) l
  unfolding lookup Found
  All-Found-skip k v m [] a f = tt
  All-Found-skip k v m ((j, w) ∷ l) a f =
      (ground (arith, text_eq_iff k j, a.0, f.0), All-Found-skip k v m l a.1 f.1)

  All-Found : (m : List (Text × V)) → Distinct (keys m) → All (Found m) m
  unfolding lookup Found
  All-Found [] d = tt
  All-Found ((k, v) ∷ m) d =
      (ground (arith, text_eq_iff k k), All-Found-skip k v m m d.0 (All-Found m d.1))

  entries-keys : (m l : List (Text × V)) → All (Found m) l → entries m (keys l) ≡ map (λ e. e.1) l
  unfolding entries Found
  entries-keys m [] f = refl
  entries-keys m (e ∷ l) f = rw (f.0, found, entries-keys m l f.1)

  -- The entries from `start` up to `stop`, counted from the newest.
  abbrev pub slice : ℕ → ℕ → List (Text × V) → List V
  slice start stop m = map (λ e. e.1) (take (stop - start) (drop start (reverse m)))

  page_keys :
      (n i : ℕ) (m : List (Text × V))
      → take n (reverse (take i (keys m))) ≡ keys (take n (reverse (take i m)))
  page_keys n i m =
      let key : Text × V → Text = λ e. e.0 in
      rw (map-take key n (reverse (take i m)), map-reverse key (take i m), map-take key i m)

  loop-slice :
      (m : List (Text × V)) (start stop total : ℕ)
      → Distinct (keys m)
      → total ≡ length m
      → start ≤ stop
      → stop ≤ total
      → (found_ids : List Text) × (down_to (total - stop) (total - start) (keys m) ≡ some found_ids)
        × (entries m found_ids ≡ slice start stop m)
  loop-slice m start stop total d t h k =
      let i = total - start in
      let n = i - (total - stop) in
      let l = length-map (λ (e : Text × V). e.0) m in
      let page = take n (reverse (take i m)) in
      let f =
        All-take (Found m) n (reverse (take i m))
          (All-reverse (Found m) (take i m) (All-take (Found m) i m (All-Found m d))) in
      let a : n ≡ stop - start = omega (arith, h, k) in
      let b : length m - i ≡ start = omega (arith, t, h, k) in
      let r = reverse-take i m (omega (arith, t)) in
      (
        keys page,
        down_to-take (total - stop) i (keys m) (omega (arith, l, t)) ∙ ap some (page_keys n i m),
        entries-keys m page f ∙ rw (r, b, a),
      )

  page_of-slice :
      (w : Window V) (start stop : ℕ)
      → IsWindow w
      → start ≤ stop
      → stop ≤ length w.entries
      → page_of (store_of w) (start, stop) ≡ some (slice start stop w.entries, length w.entries)
  unfolding page_of
  page_of-slice w start stop i h k =
      let m = w.entries in
      let l = length-map (λ (e : Text × V). e.0) m in
      let (found_ids, e, f) =
        loop-slice m start stop (length (keys m)) i.distinct l h (omega (arith, k, l)) in
      rw (page_of, e, f, l)

  -- Whatever the page and its size are, also where the bounds overflow, `list` does not panic: it
  -- gives the entries of an interval of the store, newest first, and their total.
  pub list-slice :
      (w : Window V) (page size : ℤ)
      → IsWindow w
      → list (store_of w) page size
        ≡ some (
          slice
              (page_bounds (length w.entries) page size).0
              (page_bounds (length w.entries) page size).1
              w.entries,
          length w.entries,
        )
  unfolding list
  list-slice w page size i =
      let m = w.entries in
      let l = length-map (λ (e : Text × V). e.0) m in
      let b = page_bounds-le (length m) page size in
      rw (list, l)
        (page_of-slice w (page_bounds (length m) page size).0 (page_bounds (length m) page size).1 i
          b.0 b.1)
