-- ===== src/Flow/Order/Values.antt =====
-- internal/flow/order.go: the written headers carry exactly the values of the map.
use sniffy.Common.{
  ℕ, zero, suc, ◌≡◌, ◌≢◌, refl, ap, sym, subst, ◌∙◌, ◌⊎◌, inl, inr, Bool, true, false, not, List,
  [], ◌∷◌, ◌++◌, append-nil, map, arith, is_nil, select, All, if◌then◌else◌, Bool-cases,
}
use sniffy.Common.Bytes.{Text, text_eq, text_eq_iff}
use sniffy.Common.Dict.{lookup, insert, remove, lookup-insert, lookup-remove}
use sniffy.Common.Keys.{Distinct, keys}
use sniffy.Flow.Order.{
  Fields, Queues, queue, queue_or, put, emit, insert_text, sort_texts, appended,
  reconcile_ordered_headers,
}
use sniffy.Flow.Order.Names.{List-cases, keys-All, sort_texts-All}

not_nil : (a : List Text) (v : Text) (q : List Text) → a ++ v ∷ q ≡ [] → true ≡ false
not_nil [] v q e = absurd cc
not_nil (x ∷ a) v q e = absurd cc

abbrev times : ℕ → List Text → List Text
times zero xs = []
times (suc n) xs = xs ++ times n xs

-- How often a name is in a list.
abbrev hits : Text → List Text → ℕ
hits c [] = 0
hits c (k ∷ ks) = if text_eq k c then suc (hits c ks) else hits c ks

times-nil : (n : ℕ) → times n [] ≡ []
times-nil zero = refl
times-nil (suc n) = times-nil n

hits-insert_text : (c s : Text) (ts : List Text) → hits c (insert_text s ts) ≡ hits c (s ∷ ts)
unfolding insert_text
hits-insert_text c s [] = refl
hits-insert_text c s (t ∷ ts) = ground (arith, hits-insert_text c s ts)

hits-sort_texts : (c : Text) (ts : List Text) → hits c (sort_texts ts) ≡ hits c ts
unfolding sort_texts
hits-sort_texts c [] = refl
hits-sort_texts c (t ∷ ts) =
    ground (arith, hits-insert_text c t (sort_texts ts), hits-sort_texts c ts)

hits-select :
    (c : Text) (keep : Text → Bool) (ks : List Text)
    → keep c ≡ true
    → hits c (select keep ks) ≡ hits c ks
hits-select c keep [] h = refl
hits-select c keep (k ∷ ks) h = elim (Bool-cases (text_eq k c)) [
  | inl e ↦
      let same : keep k ≡ true = ap keep ((text_eq_iff k c).0 e) ∙ h in
      rw same (ground (arith, e, hits-select c keep ks h))
  | inr e ↦ ground (arith, e, hits-select c keep ks h)
]

hits_absent : (c : Text) (ks : List Text) → All (λ k. k ≢ c) ks → hits c ks ≡ 0
hits_absent c [] a = refl
hits_absent c (k ∷ ks) a = ground (arith, text_eq_iff k c, a.0, hits_absent c ks a.1)

hits-keys :
    (c : Text) (vals : Fields)
    → Distinct (keys vals)
    → (queue c vals ≡ []) ⊎ (hits c (keys vals) ≡ 1)
unfolding queue lookup
hits-keys c [] d = inl refl
hits-keys c ((k, vs) ∷ vals) d = elim (Bool-cases (text_eq k c)) [
  | inl e ↦
      let a = subst (λ x. All (λ q. q ≢ x) (keys vals)) ((text_eq_iff k c).0 e) d.0 in
      inr (rw (e, hits_absent c (keys vals) a))
  | inr e ↦ rw e (hits-keys c vals d.1)
]

module _ (canon : Text → Text) where
  -- The values of the lines with a canonical name.
  abbrev pub values_of : Text → List (Text × Text) → List Text
  values_of c [] = []
  values_of c (kv ∷ lines) =
      if text_eq (canon kv.0) c then kv.1 ∷ values_of c lines else values_of c lines

  values_of-append :
      (c : Text) (a b : List (Text × Text)) → values_of c (a ++ b) ≡ values_of c a ++ values_of c b
  values_of-append c [] b = refl
  values_of-append c (kv ∷ a) b = ground (arith, values_of-append c a b)

  -- What the loop writes, and then what remains, are the queue.
  values_of-emit :
      (c : Text) (raw : List (Text × Text)) (rem : Queues)
      → let s = emit canon raw rem in values_of c s.0 ++ s.1 c ≡ rem c
  unfolding emit
  values_of-emit c [] rem = refl
  values_of-emit c (kv ∷ raw) rem = elim (List-cases (rem (canon kv.0))) [
    | inl e ↦ rw (e, emit) (values_of-emit c raw rem)
    | inr (v, q, e) ↦
        let ih = values_of-emit c raw (put (canon kv.0) q rem) in
        rw (e, emit)
          (elim (Bool-cases (text_eq (canon kv.0) c)) [
            | inl h ↦
                let same : rem c ≡ v ∷ q = ap rem (sym ((text_eq_iff (canon kv.0) c).0 h)) ∙ e in
                rw (h, same) (ap (◌∷◌ v) (ih ∙ rw h))
            | inr h ↦ rw h (ih ∙ rw h)
          ])
  ]

  values_of-lines :
      (c k : Text) (vs : List Text)
      → canon k ≡ k
      → values_of c (map (λ v. (k, v)) vs) ≡ (if text_eq k c then vs else [])
  values_of-lines c k [] e = ground arith
  values_of-lines c k (v ∷ vs) e = ground (arith, e, values_of-lines c k vs e)

  values_of-appended :
      (c : Text) (rem : Queues) (ks : List Text)
      → All (λ k. canon k ≡ k) ks
      → values_of c (appended rem ks) ≡ times (hits c ks) (rem c)
  unfolding appended
  values_of-appended c rem [] a = refl
  values_of-appended c rem (k ∷ ks) a =
      let lines = map (λ v. (k, v)) (rem k) in
      let ih = values_of-appended c rem ks a.1 in
      values_of-append c lines (appended rem ks) ∙ elim (Bool-cases (text_eq k c)) [
        | inl e ↦ rw (values_of-lines c k (rem k) a.0, e, ih, (text_eq_iff k c).0 e)
        | inr e ↦ rw (values_of-lines c k (rem k) a.0, e, ih)
      ]

  rest-times :
      (c : Text) (vals : Fields) (rem : Queues) (given : List Text)
      → Distinct (keys vals)
      → given ++ rem c ≡ queue c vals
      → let leftover = select (λ k. not (is_nil (rem k))) (keys vals) in
        times (hits c leftover) (rem c) ≡ rem c
  rest-times c vals rem given d h = elim (List-cases (rem c)) [
    | inl e ↦ rw e (times-nil (hits c (select (λ k. not (is_nil (rem k))) (keys vals))))
    | inr (v, q, e) ↦
        let keep : not (is_nil (rem c)) ≡ true = rw e in
        let some_value : queue c vals ≢ [] =
          λ z. absurd (cc (not_nil given v q (ap (λ x. given ++ x) (sym e) ∙ h ∙ z))) in
        elim (hits-keys c vals d) [
          | inl z ↦ absurd (some_value z)
          | inr one ↦
              let l = hits-select c (λ k. not (is_nil (rem k))) (keys vals) keep ∙ one in
              ap (λ n. times n (rem c)) l ∙ append-nil (rem c)
        ]
  ]

  -- For every name the lines that are written have exactly the values of the map, in their order:
  -- none is lost, none comes twice, none gets another name. The keys of the map are canonical.
  pub reconcile-values :
      (raw : List (Text × Text)) (vals : Fields) (c : Text)
      → Distinct (keys vals)
      → All (λ e. canon e.0 ≡ e.0) vals
      → values_of c (reconcile_ordered_headers canon raw vals) ≡ queue c vals
  unfolding reconcile_ordered_headers
  reconcile-values raw vals c d a =
      let s = emit canon raw (λ k. queue k vals) in
      let leftover = select (λ k. not (is_nil (s.1 k))) (keys vals) in
      let named =
        sort_texts-All (λ k. canon k ≡ k) leftover (keys-All (λ k. canon k ≡ k) _ vals a) in
      let e = values_of-emit c raw (λ k. queue k vals) in
      values_of-append c s.0 (appended s.1 (sort_texts leftover))
      ∙ ap (λ x. values_of c s.0 ++ x)
          (values_of-appended c s.1 (sort_texts leftover) named
            ∙ ap (λ n. times n (s.1 c)) (hits-sort_texts c leftover)
            ∙ rest-times c vals s.1 (values_of c s.0) d e)
      ∙ e

pub queue-insert :
    (c k : Text) (vs : List Text) (m : Fields)
    → queue c (insert k vs m) ≡ (if text_eq k c then vs else queue c m)
unfolding queue queue_or
queue-insert c k vs m = ground (arith, lookup-insert k c vs m)

pub queue-remove :
    (c k : Text) (m : Fields) → queue c (remove k m) ≡ (if text_eq k c then [] else queue c m)
unfolding queue queue_or
queue-remove c k m = ground (arith, lookup-remove k c m)
