-- ===== src/Common/Keys.antt =====
-- Association lists whose keys are listed once.
use mathlib.Core.Path.{◌≡◌, refl, sym}
use mathlib.Core.Logic.{◌≢◌, inl, inr}
use mathlib.Core.Bool.{Bool, true, not, ◌&&◌}
use mathlib.Core.List.{List, [], ◌∷◌, ◌++◌, map}
use mathlib.Core.Option.{none, some}
use native.Mathlib.Omega.{arith}
use sniffy.Common.Tests.{Bool-cases, if_elim}
use sniffy.Common.Lists.{All, All-append}
use sniffy.Common.Bytes.{Text, text_eq, text_eq_iff}
use sniffy.Common.Dict.{lookup, insert, remove}

abbrev pub Distinct : List Text → Type 0
Distinct [] = Unit
Distinct (p ∷ ps) = All (λ q. q ≢ p) ps × Distinct ps

pub Distinct-snoc :
    (k : Text) (ps : List Text) → All (λ q. q ≢ k) ps → Distinct ps → Distinct (ps ++ k ∷ [])
Distinct-snoc k [] a d = (tt, tt)
Distinct-snoc k (p ∷ ps) a d =
    (All-append (λ q. q ≢ p) ps (k ∷ []) d.0 ((λ e. a.0 (sym e)), tt), Distinct-snoc k ps a.1 d.1)

module _ {V : Type 0} where
  abbrev pub keys : List (Text × V) → List Text
  keys = map (λ e. e.0)

  pub remove_absent : (k : Text) (m : List (Text × V)) → All (λ q. q ≢ k) (keys m) → remove k m ≡ m
  unfolding remove
  remove_absent k [] a = refl
  remove_absent k ((j, v) ∷ m) a = ground (arith, text_eq_iff j k, remove_absent k m a.1)

  -- The first entry goes.
  pub remove_head :
      (k : Text) (v : V) (m : List (Text × V))
      → All (λ q. q ≢ k) (keys m)
      → remove k ((k, v) ∷ m) ≡ m
  unfolding remove
  remove_head k v m a = ground (arith, text_eq_iff k k, remove_absent k m a)

  -- A new key goes to the end.
  pub insert_absent :
      (k : Text) (v : V) (m : List (Text × V)) → lookup k m ≡ none → insert k v m ≡ m ++ (k, v) ∷ []
  unfolding insert lookup
  insert_absent k v [] h = refl
  insert_absent k v ((j, w) ∷ m) h = ground (arith, insert_absent k v m)

  pub lookup_absent :
      (k : Text) (m : List (Text × V)) → lookup k m ≡ none → All (λ q. q ≢ k) (keys m)
  unfolding lookup
  lookup_absent k [] h = tt
  lookup_absent k ((j, w) ∷ m) h =
      (ground (arith, text_eq_iff j k), lookup_absent k m (ground arith))

  -- A known key keeps its place.
  pub keys-insert_known :
      (k : Text) (v old : V) (m : List (Text × V))
      → lookup k m ≡ some old
      → keys (insert k v m) ≡ keys m
  unfolding insert lookup
  keys-insert_known k v old [] h = cc
  keys-insert_known k v old ((j, w) ∷ m) h = elim (Bool-cases (text_eq j k)) [
    | inl e ↦ ground (arith, text_eq_iff j k)
    | inr e ↦ ground (arith, keys-insert_known k v old m)
  ]

  All-keys-remove :
      (P : Text → Type 0) (k : Text) (m : List (Text × V))
      → All P (keys m)
      → All P (keys (remove k m))
  unfolding remove
  All-keys-remove P k [] a = tt
  All-keys-remove P k ((j, w) ∷ m) a =
      if_elim (λ (r : List (Text × V)). All P (keys r)) (text_eq j k) _ _
        (λ _. All-keys-remove P k m a.1) (λ _. (a.0, All-keys-remove P k m a.1))

  pub Distinct-remove :
      (k : Text) (m : List (Text × V)) → Distinct (keys m) → Distinct (keys (remove k m))
  unfolding remove
  Distinct-remove k [] d = tt
  Distinct-remove k ((j, w) ∷ m) d =
      if_elim (λ (r : List (Text × V)). Distinct (keys r)) (text_eq j k) _ _
        (λ _. Distinct-remove k m d.1)
        (λ _. (All-keys-remove (λ q. q ≢ j) k m d.0, Distinct-remove k m d.1))

  All-keys-insert :
      (P : Text → Type 0) (k : Text) (v : V) (m : List (Text × V))
      → P k
      → All P (keys m)
      → All P (keys (insert k v m))
  unfolding insert
  All-keys-insert P k v [] p a = (p, tt)
  All-keys-insert P k v ((j, w) ∷ m) p a =
      if_elim (λ (r : List (Text × V)). All P (keys r)) (text_eq j k) _ _ (λ _. (p, a.1))
        (λ _. (a.0, All-keys-insert P k v m p a.1))

  pub Distinct-insert :
      (k : Text) (v : V) (m : List (Text × V)) → Distinct (keys m) → Distinct (keys (insert k v m))
  unfolding insert
  Distinct-insert k v [] d = (tt, tt)
  Distinct-insert k v ((j, w) ∷ m) d = elim (Bool-cases (text_eq j k)) [
    | inl e ↦ rw (e, ← (text_eq_iff j k).0 e) d
    | inr e ↦ rw e (
      All-keys-insert (λ q. q ≢ j) k v m (ground (arith, text_eq_iff j k, e)) d.0,
      Distinct-insert k v m d.1,
    )
  ]

-- The test, for concrete lists.
unfoldable pub is_absent : Text → List Text → Bool
is_absent p [] = true
is_absent p (q ∷ qs) = not (text_eq q p) && is_absent p qs

unfoldable pub is_distinct : List Text → Bool
unfolding is_absent
is_distinct [] = true
is_distinct (p ∷ ps) = is_absent p ps && is_distinct ps

is_absent_sound : (p : Text) (qs : List Text) → is_absent p qs ≡ true → All (λ q. q ≢ p) qs
unfolding is_absent
is_absent_sound p [] h = tt
is_absent_sound p (q ∷ qs) h =
    (ground (arith, text_eq_iff q p, h), is_absent_sound p qs (ground (arith, h)))

pub is_distinct_sound : (ps : List Text) → is_distinct ps ≡ true → Distinct ps
unfolding is_distinct
is_distinct_sound [] h = tt
is_distinct_sound (p ∷ ps) h =
    (is_absent_sound p ps (ground (arith, h)), is_distinct_sound ps (ground (arith, h)))
