-- ===== src/Common/Sort.antt =====
-- `sort.SliceStable` by an integer key: what a stable sort promises, and an insertion sort that
-- keeps the promise.
use Prim.Native.Nat.{◌+◌}
use mathlib.Core.Path.{◌≡◌, refl}
use mathlib.Core.Bool.{Bool, true}
use mathlib.Core.Logic.{◌↔◌, inl, inr}
use mathlib.Core.List.{List, [], ◌∷◌, Perm}
use mathlib.Core.List.Perm
use native.Mathlib.Omega.{arith}
use sniffy.Common.Tests.{if◌then◌else◌, Bool-cases, ◌==◌}
use sniffy.Common.Lists.{All, select}
use sniffy.Common.Int.{ℤ, pos_part, neg_part, ltb_ℤ, ◌≤ℤ◌}

-- Equality of integers, read off their parts.
abbrev pub eq_ℤ : ℤ → ℤ → Bool
eq_ℤ a b = (pos_part a + neg_part b) == (pos_part b + neg_part a)

module _ {A : Type 0} (key : A → ℤ) where
  -- Keys do not fall along the list.
  abbrev pub Ascending : List A → Type 0
  Ascending [] = Unit
  Ascending (x ∷ xs) = All (λ y. key x ≤ℤ key y) xs × Ascending xs

  -- The members with a given key, in order.
  abbrev pub at_key : ℤ → List A → List A
  at_key k = select (λ x. eq_ℤ (key x) k)

  -- The same members with each key, in the same order.
  abbrev pub SameByKey : List A → List A → Type 0
  SameByKey xs ys = (k : ℤ) → at_key k xs ≡ at_key k ys

  unfoldable pub insert_by : A → List A → List A
  insert_by x [] = x ∷ []
  insert_by x (y ∷ ys) = if ltb_ℤ (key y) (key x) then y ∷ insert_by x ys else x ∷ y ∷ ys

  unfoldable pub sort_stable : List A → List A
  unfolding insert_by
  sort_stable [] = []
  sort_stable (x ∷ xs) = insert_by x (sort_stable xs)

  pub All-le_trans :
      (k : ℤ) (x : A) (xs : List A)
      → k ≤ℤ key x
      → All (λ y. key x ≤ℤ key y) xs
      → All (λ y. k ≤ℤ key y) xs
  All-le_trans k x [] h a = tt
  All-le_trans k x (y ∷ ys) h a = (omega arith, All-le_trans k x ys h a.1)

  insert_by-All :
      (k : ℤ) (x : A) (xs : List A)
      → k ≤ℤ key x
      → All (λ y. k ≤ℤ key y) xs
      → All (λ y. k ≤ℤ key y) (insert_by x xs)
  unfolding insert_by
  insert_by-All k x [] h a = (h, tt)
  insert_by-All k x (y ∷ ys) h a = elim (Bool-cases (ltb_ℤ (key y) (key x))) [
    | inl e ↦ rw e (a.0, insert_by-All k x ys h a.1)
    | inr e ↦ rw e (h, a)
  ]

  insert_by-Ascending : (x : A) (xs : List A) → Ascending xs → Ascending (insert_by x xs)
  unfolding insert_by
  insert_by-Ascending x [] s = (tt, tt)
  insert_by-Ascending x (y ∷ ys) s = elim (Bool-cases (ltb_ℤ (key y) (key x))) [
    | inl e ↦ rw e (insert_by-All (key y) x ys (ground arith) s.0, insert_by-Ascending x ys s.1)
    | inr e ↦ rw e ((ground arith, All-le_trans (key x) y ys (ground arith) s.0), s)
  ]

  pub sort_stable-Ascending : (xs : List A) → Ascending (sort_stable xs)
  unfolding sort_stable
  sort_stable-Ascending [] = tt
  sort_stable-Ascending (x ∷ xs) = insert_by-Ascending x (sort_stable xs) (sort_stable-Ascending xs)

  insert_by-perm : (x : A) (xs : List A) → Perm (insert_by x xs) (x ∷ xs)
  unfolding insert_by
  insert_by-perm x [] = Perm.rfl
  insert_by-perm x (y ∷ ys) = elim (Bool-cases (ltb_ℤ (key y) (key x))) [
    | inl e ↦ rw e (Perm.trans (Perm.cons y (insert_by-perm x ys)) (Perm.swap x y ys))
    | inr e ↦ rw e Perm.rfl
  ]

  pub sort_stable-perm : (xs : List A) → Perm (sort_stable xs) xs
  unfolding sort_stable
  sort_stable-perm [] = Perm.nil
  sort_stable-perm (x ∷ xs) =
      Perm.trans (insert_by-perm x (sort_stable xs)) (Perm.cons x (sort_stable-perm xs))

  insert_by-SameByKey : (x : A) (xs : List A) → SameByKey (insert_by x xs) (x ∷ xs)
  unfolding insert_by
  insert_by-SameByKey x [] k = refl
  insert_by-SameByKey x (y ∷ ys) k = ground (arith, insert_by-SameByKey x ys k)

  pub sort_stable-SameByKey : (xs : List A) → SameByKey (sort_stable xs) xs
  unfolding sort_stable
  sort_stable-SameByKey [] k = refl
  sort_stable-SameByKey (x ∷ xs) k =
      ground (arith, insert_by-SameByKey x (sort_stable xs) k, sort_stable-SameByKey xs k)

pub eq_ℤ_iff : (a b : ℤ) → (eq_ℤ a b ≡ true) ↔ (a ≡ b)
eq_ℤ_iff (ℤ.pos a) (ℤ.pos b) = ground arith
eq_ℤ_iff (ℤ.pos a) (ℤ.negsuc b) = ground arith
eq_ℤ_iff (ℤ.negsuc a) (ℤ.pos b) = ground arith
eq_ℤ_iff (ℤ.negsuc a) (ℤ.negsuc b) = ground arith
