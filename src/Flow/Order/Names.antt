-- ===== src/Flow/Order/Names.antt =====
-- internal/flow/order.go: where the names of the written headers come from.
use sniffy.Common.{
  ◌≡◌, refl, ◌⊎◌, inl, inr, Bool, List, [], ◌∷◌, map, not, is_nil, select, All, All-append, if_elim,
}
use sniffy.Common.Bytes.{Text}
use sniffy.Common.Ordered.{text_less}
use sniffy.Flow.Order.{
  Fields, Queues, queue, put, emit, insert_text, sort_texts, appended, reconcile_ordered_headers,
}

pub List-cases : (q : List Text) → (q ≡ []) ⊎ ((v : Text) × (r : List Text) × (q ≡ v ∷ r))
List-cases [] = inl refl
List-cases (v ∷ r) = inr (v, r, refl)

module _ (P : Text → Type 0) where
  -- Every line has such a name.
  abbrev pub Named : List (Text × Text) → Type 0
  Named = All (λ kv. P kv.0)

  emit-Named :
      (canon : Text → Text) (raw : List (Text × Text)) (rem : Queues)
      → Named raw
      → Named (emit canon raw rem).0
  unfolding emit
  emit-Named canon [] rem a = tt
  emit-Named canon (kv ∷ raw) rem a = elim (List-cases (rem (canon kv.0))) [
    | inl e ↦ rw (e, emit) (emit-Named canon raw rem a.1)
    | inr (v, q, e) ↦ rw (e, emit) (a.0, emit-Named canon raw (put (canon kv.0) q rem) a.1)
  ]

  insert_text-All : (s : Text) (ts : List Text) → P s → All P ts → All P (insert_text s ts)
  unfolding insert_text
  insert_text-All s [] p a = (p, tt)
  insert_text-All s (t ∷ ts) p a =
      if_elim (All P) (text_less t s) _ _ (λ _. (a.0, insert_text-All s ts p a.1)) (λ _. (p, a))

  pub sort_texts-All : (ts : List Text) → All P ts → All P (sort_texts ts)
  unfolding sort_texts
  sort_texts-All [] a = tt
  sort_texts-All (t ∷ ts) a = insert_text-All t (sort_texts ts) a.0 (sort_texts-All ts a.1)

  lines-Named : (k : Text) (vs : List Text) → P k → Named (map (λ v. (k, v)) vs)
  lines-Named k [] p = tt
  lines-Named k (v ∷ vs) p = (p, lines-Named k vs p)

  appended-Named : (rem : Queues) (ks : List Text) → All P ks → Named (appended rem ks)
  unfolding appended
  appended-Named rem [] a = tt
  appended-Named rem (k ∷ ks) a =
      All-append (λ kv. P kv.0) (map (λ v. (k, v)) (rem k)) (appended rem ks)
        (lines-Named k (rem k) a.0) (appended-Named rem ks a.1)

  pub keys-All :
      (keep : Text → Bool) (vals : Fields)
      → All (λ e. P e.0) vals
      → All P (select keep (map (λ e. e.0) vals))
  keys-All keep [] a = tt
  keys-All keep (e ∷ vals) a =
      if_elim (All P) (keep e.0) _ _ (λ _. (a.0, keys-All keep vals a.1))
        (λ _. keys-All keep vals a.1)

  -- Every written header has the name of a raw header or a key of the fields.
  pub reconcile-Named :
      (canon : Text → Text) (raw : List (Text × Text)) (vals : Fields)
      → Named raw
      → All (λ e. P e.0) vals
      → Named (reconcile_ordered_headers canon raw vals)
  unfolding reconcile_ordered_headers
  reconcile-Named canon raw vals a b =
      let s = emit canon raw (λ k. queue k vals) in
      let leftover = select (λ k. not (is_nil (s.1 k))) (map (λ e. e.0) vals) in
      All-append (λ kv. P kv.0) s.0 (appended s.1 (sort_texts leftover))
        (emit-Named canon raw (λ k. queue k vals) a)
        (appended-Named s.1 (sort_texts leftover) (sort_texts-All leftover (keys-All _ vals b)))
