-- ===== src/Service/Trimming.antt =====
-- internal/service/sessions.go: what the loop of trimLocked and the changes of the map leave.
use sniffy.Common.{
  ℕ, zero, suc, ◌+◌, ◌-◌, ◌≤◌, ◌≡◌, refl, ap, subst, ◌≢◌, inl, inr, List, [], ◌∷◌, ◌++◌, map, none,
  some, true, arith, ltb, length, take, drop, Bool-cases, All,
}
use sniffy.Common.Bytes.{Text, text_eq, text_eq_iff}
use sniffy.Common.Dict.{lookup, remove}
use sniffy.Common.Keys.{keys, Distinct, remove_absent, remove_head}
use sniffy.Service.Sessions.{found, trim, drop_id}

module _ {V : Type 0} where
  pub keys-remove_known :
      (k : Text) (old : V) (m : List (Text × V))
      → Distinct (keys m)
      → lookup k m ≡ some old
      → keys (remove k m) ≡ drop_id k (keys m)
  unfolding lookup drop_id remove
  keys-remove_known k old [] d h = cc
  keys-remove_known k old ((j, w) ∷ m) d h = elim (Bool-cases (text_eq j k)) [
    | inl e ↦
        let a = subst (λ q. All (λ x. x ≢ q) (keys m)) ((text_eq_iff j k).0 e) d.0 in
        rw (e, remove_absent k m a)
    | inr e ↦ ground (arith, keys-remove_known k old m d.1)
  ]

  abbrev pub Cut : ℕ → ℕ → List (Text × V) → List Text → Type 0
  Cut cap n m extra = trim cap (keys m ++ extra) m ≡ record {
    order = drop n (keys m ++ extra);
    items = drop n m;
    evicted = map (λ e. e.1) (take n m);
  }

  lookup_head : (k : Text) (v : V) (m : List (Text × V)) → lookup k ((k, v) ∷ m) ≡ some v
  unfolding lookup
  lookup_head k v m = ground (arith, text_eq_iff k k)

  length-keys :
      (m : List (Text × V)) (extra : List Text) → length (keys m ++ extra) ≡ length m + length extra
  length-keys [] extra = omega arith
  length-keys (e ∷ m) extra = omega (arith, length-keys m extra)

  -- Nothing is above the capacity.
  trim-fits :
      (cap : ℕ) (m : List (Text × V)) (order : List Text)
      → length order ≤ cap
      → trim cap order m ≡ record { order = order; items = m; evicted = [] }
  unfolding trim
  trim-fits cap m [] h = refl
  trim-fits cap m (x ∷ order) h = ground arith

  -- The loop of `trimLocked` takes off as many entries as there are too many.
  pub trim-Cut :
      (cap n : ℕ) (m : List (Text × V)) (extra : List Text)
      → Distinct (keys m)
      → length extra ≤ cap
      → n ≡ length m + length extra - cap
      → Cut cap n m extra
  unfolding trim
  trim-Cut cap zero m extra d h e =
      trim-fits cap m (keys m ++ extra) (omega (arith, length-keys m extra))
  trim-Cut cap (suc n) [] extra d h e = absurd (omega arith)
  trim-Cut cap (suc n) ((k, v) ∷ m) extra d h e =
      let over : ltb cap (suc (length (keys m ++ extra))) ≡ true =
        ground (arith, length-keys m extra) in
      let rest = trim-Cut cap n m extra d.1 h (omega arith) in
      rw (over, remove_head k v m d.0, lookup_head k v m, rest, found)

  pub lookup_dropped :
      (k : Text) (n : ℕ) (m : List (Text × V)) → lookup k m ≡ none → lookup k (drop n m) ≡ none
  unfolding lookup
  lookup_dropped k zero m h = h
  lookup_dropped k (suc n) [] h = refl
  lookup_dropped k (suc n) (e ∷ m) h = lookup_dropped k n m (ground arith)

  pub Distinct-drop : (n : ℕ) (m : List (Text × V)) → Distinct (keys m) → Distinct (keys (drop n m))
  Distinct-drop zero m d = d
  Distinct-drop (suc n) [] d = d
  Distinct-drop (suc n) (e ∷ m) d = Distinct-drop n m d.1

  pub take-append_le :
      (n : ℕ) (m rest : List (Text × V)) → n ≤ length m → take n (m ++ rest) ≡ take n m
  take-append_le zero m rest h = refl
  take-append_le (suc n) [] rest h = absurd (omega arith)
  take-append_le (suc n) (e ∷ m) rest h = ap (◌∷◌ e) (take-append_le n m rest (omega arith))
