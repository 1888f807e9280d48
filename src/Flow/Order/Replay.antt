-- ===== src/Flow/Order/Replay.antt =====
-- internal/flow/order.go: which of the raw headers go out again.
use sniffy.Common.{
  ◌≡◌, refl, ap, sym, ◌∙◌, inl, inr, Bool, true, false, not, List, [], ◌∷◌, ◌++◌, append_assoc,
  append-nil, map, arith, is_nil, select, if◌then◌else◌, Bool-cases,
}
use sniffy.Common.Bytes.{Text, text_eq, text_eq_iff, text_eq_refl}
use sniffy.Common.Dict.{lookup, remove}
use sniffy.Flow.Order.{
  Fields, Queues, queue, put, emit, sort_texts, appended, reconcile_ordered_headers, add_value,
  collect,
}

module _ (canon : Text → Text) where
  -- The values of the raw headers with a canonical name.
  abbrev values_at : Text → List (Text × Text) → List Text
  values_at c [] = []
  values_at c (kv ∷ raw) =
      if text_eq (canon kv.0) c then kv.1 ∷ values_at c raw else values_at c raw

  queue-nil : (c : Text) → queue c [] ≡ []
  unfolding queue lookup
  queue-nil c = refl

  queue-cons :
      (c j : Text) (q : List Text) (m : Fields)
      → queue c ((j, q) ∷ m) ≡ (if text_eq j c then q else queue c m)
  unfolding queue lookup
  queue-cons c j q m = elim (Bool-cases (text_eq j c)) [ inl e ↦ rw e | inr e ↦ rw e ]

  queue-add_value :
      (k v c : Text) (m : Fields)
      → queue c (add_value k v m) ≡ queue c m ++ (if text_eq k c then v ∷ [] else [])
  unfolding add_value
  queue-add_value k v c [] = queue-cons c k (v ∷ []) [] ∙ rw (queue-nil c)
  queue-add_value k v c ((j, q) ∷ m) = elim (Bool-cases (text_eq j k)) [
    | inl e ↦
        rw (e, queue-cons c j (q ++ v ∷ []) m, queue-cons c j q m, ← (text_eq_iff j k).0 e)
          (elim (Bool-cases (text_eq j c)) [
            | inl h ↦ rw h
            | inr h ↦ rw h (sym (append-nil (queue c m)))
          ])
    | inr e ↦
        rw (e, queue-cons c j q (add_value k v m), queue-cons c j q m)
          (elim (Bool-cases (text_eq j c)) [
            | inl h ↦
                let other : text_eq k c ≡ false =
                  ground (arith, e, h, text_eq_iff j k, text_eq_iff j c, text_eq_iff k c) in
                rw (h, other) (sym (append-nil q))
            | inr h ↦ rw h (queue-add_value k v c m)
          ])
  ]

  queue-collect :
      (c : Text) (raw : List (Text × Text)) (m : Fields)
      → queue c (collect canon raw m) ≡ queue c m ++ values_at c raw
  unfolding collect
  queue-collect c [] m = sym (append-nil (queue c m))
  queue-collect c (kv ∷ raw) m =
      queue-collect c raw (add_value (canon kv.0) kv.1 m)
      ∙ ap (λ q. q ++ values_at c raw) (queue-add_value (canon kv.0) kv.1 c m)
      ∙ elim (Bool-cases (text_eq (canon kv.0) c)) [
        | inl e ↦ rw e (append_assoc (queue c m) (kv.1 ∷ []) (values_at c raw))
        | inr e ↦ rw e (ap (λ q. q ++ values_at c raw) (append-nil (queue c m)))
      ]

  -- The queues hold the values of exactly the names that are kept.
  abbrev Kept : (Text → Bool) → List (Text × Text) → Queues → Type 0
  Kept keep raw rem = (c : Text) → rem c ≡ (if keep c then values_at c raw else [])

  Kept-skip :
      (keep : Text → Bool) (kv : Text × Text) (raw : List (Text × Text)) (rem : Queues)
      → keep (canon kv.0) ≡ false
      → Kept keep (kv ∷ raw) rem
      → Kept keep raw rem
  Kept-skip keep kv raw rem off k c = k c ∙ elim (Bool-cases (text_eq (canon kv.0) c)) [
    | inl e ↦
        let off' : keep c ≡ false = ap keep (sym ((text_eq_iff (canon kv.0) c).0 e)) ∙ off in
        rw off'
    | inr e ↦ rw e
  ]

  Kept-take :
      (keep : Text → Bool) (kv : Text × Text) (raw : List (Text × Text)) (rem : Queues)
      → keep (canon kv.0) ≡ true
      → Kept keep (kv ∷ raw) rem
      → Kept keep raw (put (canon kv.0) (values_at (canon kv.0) raw) rem)
  Kept-take keep kv raw rem on k c = elim (Bool-cases (text_eq (canon kv.0) c)) [
    | inl e ↦
        let same = (text_eq_iff (canon kv.0) c).0 e in
        let on' : keep c ≡ true = ap keep (sym same) ∙ on in
        rw (e, on') (ap (λ x. values_at x raw) same)
    | inr e ↦ rw e (k c ∙ rw e)
  ]

  taken_first :
      (keep : Text → Bool) (kv : Text × Text) (raw : List (Text × Text)) (rem : Queues)
      → keep (canon kv.0) ≡ true
      → Kept keep (kv ∷ raw) rem
      → rem (canon kv.0) ≡ kv.1 ∷ values_at (canon kv.0) raw
  taken_first keep kv raw rem on k = k (canon kv.0) ∙ rw (on, text_eq_refl (canon kv.0))

  taken_none :
      (keep : Text → Bool) (kv : Text × Text) (raw : List (Text × Text)) (rem : Queues)
      → keep (canon kv.0) ≡ false
      → Kept keep (kv ∷ raw) rem
      → rem (canon kv.0) ≡ []
  taken_none keep kv raw rem off k = k (canon kv.0) ∙ rw off

  emit-select :
      (keep : Text → Bool) (raw : List (Text × Text)) (rem : Queues)
      → Kept keep raw rem
      → ((emit canon raw rem).0 ≡ select (λ kv. keep (canon kv.0)) raw)
        × ((c : Text) → (emit canon raw rem).1 c ≡ [])
  unfolding emit
  emit-select keep [] rem k =
      (refl, λ c. k c ∙ elim (Bool-cases (keep c)) [ inl e ↦ rw e | inr e ↦ rw e ])
  emit-select keep (kv ∷ raw) rem k = elim (Bool-cases (keep (canon kv.0))) [
    | inl on ↦
        let ih =
          emit-select keep raw (put (canon kv.0) (values_at (canon kv.0) raw) rem)
            (Kept-take keep kv raw rem on k) in
        rw (taken_first keep kv raw rem on k, on, emit) (ap (λ xs. kv ∷ xs) ih.0, ih.1)
    | inr off ↦
        let ih = emit-select keep raw rem (Kept-skip keep kv raw rem off k) in
        rw (taken_none keep kv raw rem off k, off, emit) ih
  ]

  nothing_left :
      (rem : Queues)
      → ((c : Text) → rem c ≡ [])
      → (ks : List Text) → select (λ k. not (is_nil (rem k))) ks ≡ []
  nothing_left rem h [] = refl
  nothing_left rem h (k ∷ ks) = rw (h k) (nothing_left rem h ks)

  reconcile-select :
      (keep : Text → Bool) (raw : List (Text × Text)) (vals : Fields)
      → Kept keep raw (λ c. queue c vals)
      → reconcile_ordered_headers canon raw vals ≡ select (λ kv. keep (canon kv.0)) raw
  unfolding reconcile_ordered_headers
  reconcile-select keep raw vals k =
      let s = emit-select keep raw (λ c. queue c vals) k in
      rw (nothing_left (emit canon raw (λ c. queue c vals)).1 s.1 (map (λ e. e.0) vals))
        (unfold sort_texts appended in append-nil (emit canon raw (λ c. queue c vals)).0 ∙ s.0)

  kept_all : (raw : List (Text × Text)) → select (λ kv. true) raw ≡ raw
  kept_all [] = refl
  kept_all (kv ∷ raw) = ap (λ xs. kv ∷ xs) (kept_all raw)

  -- Header lines reconciled with the header map that collects them, where nothing was changed or
  -- taken out in between, are the lines again: same names, same spelling, same values, same order.
  -- This is for every canonical form of names.
  pub reconcile-collect :
      (raw : List (Text × Text)) → reconcile_ordered_headers canon raw (collect canon raw []) ≡ raw
  reconcile-collect raw =
      reconcile-select (λ c. true) raw (collect canon raw [])
        (λ c. queue-collect c raw [] ∙ rw (queue-nil c))
      ∙ kept_all raw

  queue-remove :
      (k c : Text) (m : Fields) → queue c (remove k m) ≡ (if text_eq k c then [] else queue c m)
  unfolding remove
  queue-remove k c [] =
      rw (queue-nil c) (elim (Bool-cases (text_eq k c)) [ inl e ↦ rw e | inr e ↦ rw e ])
  queue-remove k c ((j, q) ∷ m) = elim (Bool-cases (text_eq j k)) [
    | inl e ↦
        let same = (text_eq_iff j k).0 e in
        rw (e, queue-cons c j q m, same)
          (queue-remove k c m ∙ elim (Bool-cases (text_eq k c)) [ inl h ↦ rw h | inr h ↦ rw h ])
    | inr e ↦
        rw (e, queue-cons c j q (remove k m), queue-cons c j q m)
          (elim (Bool-cases (text_eq j c)) [
            | inl h ↦
                let other : text_eq k c ≡ false =
                  ground (arith, e, h, text_eq_iff j k, text_eq_iff j c, text_eq_iff k c) in
                rw (h, other)
            | inr h ↦ rw h (queue-remove k c m)
          ])
  ]

  -- Deleting a header takes exactly its lines out of those that came in; all others stay as they
  -- are, in their places.
  pub reconcile-remove :
      (raw : List (Text × Text)) (k : Text)
      → reconcile_ordered_headers canon raw (remove k (collect canon raw []))
        ≡ select (λ kv. not (text_eq k (canon kv.0))) raw
  reconcile-remove raw k =
      reconcile-select (λ c. not (text_eq k c)) raw (remove k (collect canon raw []))
        (λ c. queue-remove k c (collect canon raw []) ∙ elim (Bool-cases (text_eq k c)) [
          | inl e ↦ rw e
          | inr e ↦ rw e (queue-collect c raw [] ∙ rw (queue-nil c))
        ])
