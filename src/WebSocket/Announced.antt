-- ===== src/WebSocket/Announced.antt =====
-- capture/processors/http/websocket/pipeline.go: a session record keeps its books, and what it has
-- become is announced.
use sniffy.Common.{
  ℕ, zero, suc, ◌+◌, ◌-◌, ◌≡◌, ◌⊎◌, inl, inr, subst, Option-cases, refl, ap, sym, ◌∙◌, true, List,
  [], ◌∷◌, ◌++◌, append_assoc, Option, none, some, arith, ltb, length, length-append, drop,
  length-drop, if_elim, map, map-drop, length-map, drop-drop, drop-append_le, append-nil,
}
use mathlib.Core.List.{map-append}
use sniffy.Common.Bytes.{Text, Bytes}
use sniffy.Flow.{WsMessage, WsSession}
use sniffy.WebSocket.Session.{
  Recorder, max_messages, taken_out, received, give, new_recorder, keep_newest, record_message,
  Call, records, sets_process, closes, gives, step, run,
}

-- The recorded payloads, oldest first.
abbrev pub recorded : List Call → List Bytes
recorded [] = []
recorded (records id now direction kind bytes ∷ cs) = bytes ∷ recorded cs
recorded (sets_process p ∷ cs) = recorded cs
recorded (closes now ∷ cs) = recorded cs
recorded (gives n ∷ cs) = recorded cs

abbrev pub total : List Bytes → ℕ
total [] = 0
total (b ∷ bs) = length b + total bs

abbrev pub payloads : List WsMessage → List Bytes
payloads = map (λ m. m.payload)

-- A snapshot of the session as it is, is in the list.
abbrev pub Has : WsSession → List WsSession → Type 0
Has s [] = ⊥
Has s (t ∷ ts) = (t ≡ s) ⊎ Has s ts

-- What a recorder knows of the payloads that it was given.
pub record Agrees (everything : List Bytes) (r : Recorder) : Type 0 where
  pub counted : r.session.message_count ≡ length everything
  pub sized : r.session.total_size ≡ total everything
  pub newest : payloads r.session.messages ≡ drop (length everything - max_messages) everything
  pub announced : Has r.session r.on_the_way ⊎ Has r.session r.pushed

payloads-keep_newest :
    (ms : List WsMessage)
    → payloads (keep_newest ms) ≡ drop (length (payloads ms) - max_messages) (payloads ms)
unfolding keep_newest
payloads-keep_newest ms = rw (length-map (λ (m : WsMessage). m.payload) ms) (
    if_elim (λ (x : List WsMessage). payloads x ≡ drop (length ms - max_messages) (payloads ms))
      (ltb max_messages (length ms)) (drop (length ms - max_messages) ms) ms
      (λ _. map-drop (λ m. m.payload) (length ms - max_messages) ms)
      (λ e. let z : length ms - max_messages ≡ 0 = ground arith in rw z))

-- One more payload at the end, and the newest of all of them.
newest-snoc :
    (m : ℕ) (all : List Bytes) (b : Bytes) (kept : List Bytes)
    → kept ≡ drop (length all - m) all ++ b ∷ []
    → drop (length kept - m) kept ≡ drop (length (all ++ b ∷ []) - m) (all ++ b ∷ [])
newest-snoc m all b kept e =
    let n = length all in
    let s : kept ≡ drop (n - m) (all ++ b ∷ []) =
      e ∙ sym (drop-append_le (n - m) all (b ∷ []) (omega arith)) in
    let l : length kept ≡ n + 1 - (n - m) =
      ap length s
      ∙ length-drop (n - m) (all ++ b ∷ [])
      ∙ ap (λ k. k - (n - m)) (length-append all (b ∷ [])) in
    let k : n - m + (length kept - m) ≡ length (all ++ b ∷ []) - m =
      omega (arith, l, length-append all (b ∷ [])) in
    ap (drop (length kept - m)) s
    ∙ drop-drop (length kept - m) (n - m) (all ++ b ∷ [])
    ∙ ap (λ j. drop j (all ++ b ∷ [])) k

total-snoc : (xs : List Bytes) (b : Bytes) → total (xs ++ b ∷ []) ≡ total xs + length b
total-snoc [] b = omega arith
total-snoc (x ∷ xs) b = omega (arith, total-snoc xs b)

record_message-Agrees :
    (xs : List Bytes) (r : Recorder) (id : Text) (now : ℕ) (direction kind : Text) (b : Bytes)
    → Agrees xs r
    → Agrees (xs ++ b ∷ []) (record_message id now direction kind b r)
unfolding record_message
record_message-Agrees xs r id now direction kind b v = record {
  counted = omega (arith, v.counted, length-append xs (b ∷ []));
  sized = omega (arith, v.sized, total-snoc xs b);
  newest =
      payloads-keep_newest (r.session.messages ++ added ∷ [])
      ∙ newest-snoc max_messages xs b (payloads (r.session.messages ++ added ∷ [])) (
          map-append (λ m. m.payload) r.session.messages (added ∷ [])
          ∙ ap (λ ps. ps ++ b ∷ []) v.newest);
  announced = inl (inl refl);
}
  where
    added : WsMessage
    added = record {
      id = id;
      flow_id = r.session.id;
      conn_id = [];
      url = r.session.url;
      direction = direction;
      kind = kind;
      payload = b;
      timestamp = now;
    }

Has-left : (s : WsSession) (xs ys : List WsSession) → Has s xs → Has s (xs ++ ys)
Has-left s [] ys h = absurd h
Has-left s (x ∷ xs) ys (inl e) = inl e
Has-left s (x ∷ xs) ys (inr h) = inr (Has-left s xs ys h)

Has-last : (s t : WsSession) (xs : List WsSession) → t ≡ s → Has s (xs ++ t ∷ [])
Has-last s t [] e = inl e
Has-last s t (x ∷ xs) e = inr (Has-last s t xs e)

-- Taking out an entry leaves the others.
Has-taken_out :
    (s : WsSession) (n : ℕ) (ss : List WsSession) (t : WsSession) (rest : List WsSession)
    → taken_out n ss ≡ some (t, rest)
    → Has s ss
    → (t ≡ s) ⊎ Has s rest
unfolding taken_out
Has-taken_out s n [] t rest e h = absurd h
Has-taken_out s zero (x ∷ ss) t rest e (inl k) = inl (let a : x ≡ t = cc in sym a ∙ k)
Has-taken_out s zero (x ∷ ss) t rest e (inr k) = inr (let a : ss ≡ rest = cc in subst (Has s) a k)
Has-taken_out s (suc n) (x ∷ ss) t rest e h = elim (Option-cases (taken_out n ss)) [
  | inl a ↦ absurd (ground (arith, a, e))
  | inr ((u, r), a) ↦
      let b : u ≡ t = ground (arith, a, e) in
      let c : x ∷ r ≡ rest = ground (arith, a, e) in
      elim h [
        | inl k ↦ inr (subst (Has s) c (inl k))
        | inr k ↦ elim (Has-taken_out s n ss u r a k) [
          | inl m ↦ inl (sym b ∙ m)
          | inr m ↦ inr (subst (Has s) c (inr m))
        ]
      ]
]

give-Agrees : (xs : List Bytes) (r : Recorder) (n : ℕ) → Agrees xs r → Agrees xs (give n r)
unfolding give
give-Agrees xs r n v = go (taken_out n r.on_the_way) refl
  where
    go :
        (o : Option (WsSession × List WsSession))
        → taken_out n r.on_the_way ≡ o
        → Agrees xs (received r o)
    go none e = unfold received in v
    go (some (t, rest)) e =
        unfold received in
        record {
          counted = v.counted;
          sized = v.sized;
          newest = v.newest;
          announced = elim v.announced [
            | inr h ↦ inr (Has-left r.session r.pushed (t ∷ []) h)
            | inl h ↦ elim (Has-taken_out r.session n r.on_the_way t rest e h) [
              | inl k ↦ inr (Has-last r.session t r.pushed k)
              | inr k ↦ inl k
            ]
          ];
        }

run-Agrees :
    (xs : List Bytes) (r : Recorder) (cs : List Call)
    → Agrees xs r
    → Agrees (xs ++ recorded cs) (run r cs)
unfolding run step
run-Agrees xs r [] v = rw (append-nil xs) v
run-Agrees xs r (records id now direction kind b ∷ cs) v =
    rw (← append_assoc xs (b ∷ []) (recorded cs)) (
      run-Agrees (xs ++ b ∷ []) (record_message id now direction kind b r) cs
        (record_message-Agrees xs r id now direction kind b v))
run-Agrees xs r (sets_process none ∷ cs) v = run-Agrees xs r cs v
run-Agrees xs r (sets_process (some p) ∷ cs) v =
    run-Agrees xs _ cs (record {
      counted = v.counted;
      sized = v.sized;
      newest = v.newest;
      announced = inl (inl refl);
    })
run-Agrees xs r (closes now ∷ cs) v =
    run-Agrees xs _ cs (record {
      counted = v.counted;
      sized = v.sized;
      newest = v.newest;
      announced = inl (inl refl);
    })
run-Agrees xs r (gives n ∷ cs) v = run-Agrees xs (give n r) cs (give-Agrees xs r n v)

-- Whatever calls the relay makes on a new recorder, in any order: the count and the size are those
-- of all the messages, the messages kept are the newest, at most 500 of them, in order, and a
-- snapshot of the session as it is has reached the sink or is on its way to it, though snapshots may
-- arrive in another order than they were taken in.
pub new_recorder-Agrees :
    (id url : Text) (now : ℕ) (cs : List Call)
    → (r : Recorder) × (new_recorder true id url now ≡ some r) × Agrees (recorded cs) (run r cs)
unfolding new_recorder
new_recorder-Agrees id url now cs = (
  _,
  refl,
  run-Agrees [] _ cs
      (record { counted = refl; sized = refl; newest = refl; announced = inl (inl refl) }),
)
