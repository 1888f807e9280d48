-- ===== src/Common/Ordered.antt =====
-- `slices.SortFunc` and `sort.Strings` by a strict order: what the sort gives does not depend on the
-- order it starts from.
use mathlib.Core.Path.{◌≡◌, refl, ◌∙◌}
use mathlib.Core.Logic.{∥∥₁_elim}
use mathlib.Core.Bool.{Bool, true, false, ◌||◌, ◌&&◌}
use mathlib.Core.List.{List, [], ◌∷◌, Perm, Permᴰ}
use native.Mathlib.Omega.{arith}
use sniffy.Common.Tests.{if◌then◌else◌, ltb, ◌==◌}
use sniffy.Common.Bytes.{Text}

module _ {A : Type 0} (before : A → A → Bool) where
  unfoldable pub insert_at : A → List A → List A
  insert_at x [] = x ∷ []
  insert_at x (y ∷ ys) = if before y x then y ∷ insert_at x ys else x ∷ y ∷ ys

  unfoldable pub sort_func : List A → List A
  unfolding insert_at
  sort_func [] = []
  sort_func (x ∷ xs) = insert_at x (sort_func xs)

  -- A strict order in which any two members are the same or compare.
  pub record StrictOrder : Type 0 where
    pub asym : (a b : A) → before a b ≡ true → before b a ≡ false
    pub trans : (a b c : A) → before a b ≡ true → before b c ≡ true → before a c ≡ true
    pub connex : (a b : A) → before a b ≡ false → before b a ≡ false → a ≡ b

  module _ (o : StrictOrder) where
    insert-insert :
        (a b : A) (l : List A) → insert_at a (insert_at b l) ≡ insert_at b (insert_at a l)
    unfolding insert_at
    insert-insert a b [] = ground (arith, o.asym a b, o.connex a b)
    insert-insert a b (x ∷ l) = ground (
      arith,
      insert-insert a b l,
      o.asym a b,
      o.connex a b,
      o.asym x a,
      o.asym x b,
      o.connex x a,
      o.connex x b,
      o.trans a x b,
      o.trans b x a,
    )

    insert_at-eq : (a b : A) (l m : List A) → a ≡ b → l ≡ m → insert_at a l ≡ insert_at b m
    insert_at-eq a b l m e f = cc

    sort-Permᴰ : {xs ys : List A} → Permᴰ xs ys → sort_func xs ≡ sort_func ys
    unfolding sort_func
    sort-Permᴰ Permᴰ.nil = refl
    sort-Permᴰ (Permᴰ.cons {a} {b} {l₁} {l₂} e d) =
        insert_at-eq a b (sort_func l₁) (sort_func l₂) e (sort-Permᴰ d)
    sort-Permᴰ (Permᴰ.swap {a} {b} {a'} {b'} {l} e f) =
        insert-insert a b (sort_func l)
        ∙ insert_at-eq b a' (insert_at a (sort_func l)) (insert_at b' (sort_func l)) f
            (insert_at-eq a b' (sort_func l) (sort_func l) e refl)
    sort-Permᴰ (Permᴰ.trans d f) = sort-Permᴰ d ∙ sort-Permᴰ f

    -- A list in any order gives the same sorted list.
    pub sort_func-perm : IsSet A → (xs ys : List A) → Perm xs ys → sort_func xs ≡ sort_func ys
    sort_func-perm s xs ys p = ∥∥₁_elim p (hlevel s) sort-Permᴰ

-- `a < b` on strings: byte by byte.
unfoldable pub text_less : Text → Text → Bool
text_less s [] = false
text_less [] (y ∷ t) = true
text_less (x ∷ s) (y ∷ t) = ltb x y || ((x == y) && text_less s t)

text_less_asym : (a b : Text) → text_less a b ≡ true → text_less b a ≡ false
unfolding text_less
text_less_asym [] [] h = refl
text_less_asym [] (y ∷ t) h = refl
text_less_asym (x ∷ s) [] h = absurd cc
text_less_asym (x ∷ s) (y ∷ t) h = ground (arith, text_less_asym s t)

text_less_trans :
    (a b c : Text) → text_less a b ≡ true → text_less b c ≡ true → text_less a c ≡ true
unfolding text_less
text_less_trans s t [] h k = absurd cc
text_less_trans s [] (z ∷ u) h k = absurd cc
text_less_trans [] (y ∷ t) (z ∷ u) h k = refl
text_less_trans (x ∷ s) (y ∷ t) (z ∷ u) h k = ground (arith, text_less_trans s t u)

text_less_connex : (a b : Text) → text_less a b ≡ false → text_less b a ≡ false → a ≡ b
unfolding text_less
text_less_connex [] [] h k = refl
text_less_connex [] (y ∷ t) h k = absurd cc
text_less_connex (x ∷ s) [] h k = absurd cc
text_less_connex (x ∷ s) (y ∷ t) h k = ground (arith, text_less_connex s t)

pub text_less-StrictOrder : StrictOrder text_less
text_less-StrictOrder = record {
  asym = text_less_asym;
  trans = text_less_trans;
  connex = text_less_connex;
}
