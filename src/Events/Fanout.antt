-- ===== src/Events/Fanout.antt =====
-- internal/core/events.go: who gets an event, and what a slow subscriber costs.
use sniffy.Common.{
  ℕ, ◌+◌, ◌≤◌, ◌<◌, ◌≡◌, refl, Bool, not, inl, inr, List, [], ◌∷◌, ◌++◌, Option, none, some, arith,
  ltb, ◌==◌, length, length-append, select, All, if◌then◌else◌, if_elim, Bool-cases,
}
use sniffy.Events.Bus.{
  Event, Subscriber, EventBus, new_event_bus, subscribe, cancel, offer, offer_each, publish,
  first_gone, receive_each, receive, Call, subscribes, cancels, publishes, receives, step, run,
}

-- What the channel of a subscriber holds; `none` if it is not subscribed.
unfoldable pub pending_of : ℕ → List Subscriber → Option (List Event)
pending_of id [] = none
pending_of id (s ∷ ss) = if s.id == id then some s.pending else pending_of id ss

-- A channel with one more event, if there is room.
abbrev pub queued : ℕ → Event → Option (List Event) → Option (List Event)
queued size e none = none
queued size e (some q) = some (if ltb (length q) size then q ++ e ∷ [] else q)

offer_id : (size : ℕ) (e : Event) (s : Subscriber) → (offer size e s).id ≡ s.id
unfolding offer
offer_id size e s =
    if_elim (λ (t : Subscriber). t.id ≡ s.id) (ltb (length s.pending) size) _ _ (λ _. refl)
      λ _. refl

offer-queued :
    (size id : ℕ) (e : Event) (ss : List Subscriber)
    → pending_of id (offer_each size e ss) ≡ queued size e (pending_of id ss)
unfolding pending_of offer_each offer
offer-queued size id e [] = refl
offer-queued size id e (s ∷ ss) = elim (Bool-cases (s.id == id)) [
  | inl k ↦
      rw (offer_id size e s, k)
        (elim (Bool-cases (ltb (length s.pending) size)) [
          | inl r ↦ rw (r, offer)
          | inr r ↦ rw (r, offer)
        ])
  | inr k ↦ rw (offer_id size e s, k) (offer-queued size id e ss)
]

-- What every run keeps: channels within their size, and numbers that were given out.
pub record IsSound (b : EventBus) : Type 0 where
  pub bounded : All (λ s. length s.pending ≤ b.buffer_size) b.subscribers
  pub given_out : All (λ s. s.id < b.next_id) b.subscribers

select-All :
    (P : Subscriber → Type 0) (t : Subscriber → Bool) (ss : List Subscriber)
    → All P ss
    → All P (select t ss)
select-All P t [] h = tt
select-All P t (s ∷ ss) h =
    if_elim (All P) (t s) _ _ (λ _. (h.0, select-All P t ss h.1)) λ _. select-All P t ss h.1

offer_fits :
    (size n : ℕ) (e : Event) (s : Subscriber)
    → length s.pending ≤ size
    → s.id < n
    → (length (offer size e s).pending ≤ size) × ((offer size e s).id < n)
unfolding offer
offer_fits size n e s fits low =
    if_elim (λ (t : Subscriber). (length t.pending ≤ size) × (t.id < n))
      (ltb (length s.pending) size) _ _
      (λ k. (ground (arith, length-append s.pending (e ∷ [])), low)) λ _. (fits, low)

offer_each-All :
    (size n : ℕ) (e : Event) (ss : List Subscriber)
    → All (λ s. length s.pending ≤ size) ss × All (λ s. s.id < n) ss
    → All (λ s. length s.pending ≤ size) (offer_each size e ss)
      × All (λ s. s.id < n) (offer_each size e ss)
unfolding offer_each
offer_each-All size n e [] h = (tt, tt)
offer_each-All size n e (s ∷ ss) h =
    let ih = offer_each-All size n e ss (h.0.1, h.1.1) in
    let one = offer_fits size n e s h.0.0 h.1.0 in ((one.0, ih.0), (one.1, ih.1))

first_gone_fits :
    (s : Subscriber)
    → (length (first_gone s).pending ≤ length s.pending) × ((first_gone s).id ≡ s.id)
unfolding first_gone
first_gone_fits s = go s.pending
  where
    go :
        (q : List Event)
        → let t : Subscriber = record { id = s.id; pending = q } in
          (length (first_gone t).pending ≤ length q) × ((first_gone t).id ≡ s.id)
    go [] = (omega arith, refl)
    go (e ∷ q) = (omega arith, refl)

receive_each-All :
    (size n id : ℕ) (ss : List Subscriber)
    → All (λ s. length s.pending ≤ size) ss × All (λ s. s.id < n) ss
    → All (λ s. length s.pending ≤ size) (receive_each id ss)
      × All (λ s. s.id < n) (receive_each id ss)
unfolding receive_each
receive_each-All size n id [] h = (tt, tt)
receive_each-All size n id (s ∷ ss) h =
    let ih = receive_each-All size n id ss (h.0.1, h.1.1) in
    let f = first_gone_fits s in
    if_elim
      (λ (out : List Subscriber). All (λ s. length s.pending ≤ size) out × All (λ s. s.id < n) out)
      (s.id == id) _ _ (λ _. ((omega (arith, f.0, h.0.0), ih.0), (omega (arith, f.1, h.1.0), ih.1)))
      λ _. ((h.0.0, ih.0), (h.1.0, ih.1))

one_higher : (n : ℕ) (ss : List Subscriber) → All (λ s. s.id < n) ss → All (λ s. s.id < n + 1) ss
one_higher n [] h = tt
one_higher n (s ∷ ss) h = (omega arith, one_higher n ss h.1)

step-IsSound : (b : EventBus) (c : Call) → IsSound b → IsSound (step b c)
unfolding step subscribe cancel publish receive
step-IsSound b subscribes v = record {
  bounded = (omega arith, v.bounded);
  given_out = (omega arith, one_higher b.next_id b.subscribers v.given_out);
}
step-IsSound b (cancels id) v = record {
  bounded = select-All _ (λ s. not (s.id == id)) b.subscribers v.bounded;
  given_out = select-All _ (λ s. not (s.id == id)) b.subscribers v.given_out;
}
step-IsSound b (publishes e) v =
    let h = offer_each-All b.buffer_size b.next_id e b.subscribers (v.bounded, v.given_out) in
    record { bounded = h.0; given_out = h.1 }
step-IsSound b (receives id) v =
    let h = receive_each-All b.buffer_size b.next_id id b.subscribers (v.bounded, v.given_out) in
    record { bounded = h.0; given_out = h.1 }

run-IsSound : (b : EventBus) (cs : List Call) → IsSound b → IsSound (run b cs)
unfolding run
run-IsSound b [] v = v
run-IsSound b (c ∷ cs) v = run-IsSound (step b c) cs (step-IsSound b c v)

-- Whatever calls are made on a new bus, in any order: no channel holds more than its size, and every
-- subscriber has a number that was given out before.
pub run-new-IsSound : (cs : List Call) → IsSound (run new_event_bus cs)
unfolding new_event_bus
run-new-IsSound cs = run-IsSound new_event_bus cs (record { bounded = tt; given_out = tt })

fresh : (n : ℕ) (ss : List Subscriber) → All (λ s. s.id < n) ss → pending_of n ss ≡ none
unfolding pending_of
fresh n [] h = refl
fresh n (s ∷ ss) h = ground (arith, fresh n ss h.1)

-- On a bus that any calls have made, a new subscriber starts with an empty channel under a number
-- that nobody has, and the others keep theirs; an event is put behind what each subscriber has not
-- read yet, where there is room, and is dropped for the others alone.
pub publish-subscribe :
    (cs : List Call) (e : Event) (id : ℕ)
    → let b = run new_event_bus cs in
      (pending_of b.next_id b.subscribers ≡ none)
      × (pending_of id (subscribe b).0.subscribers
          ≡ (if b.next_id == id then some [] else pending_of id b.subscribers))
      × (pending_of id (publish b e).subscribers
          ≡ queued b.buffer_size e (pending_of id b.subscribers))
unfolding subscribe publish
publish-subscribe cs e id =
    let b = run new_event_bus cs in
    (
      fresh b.next_id b.subscribers (run-new-IsSound cs).given_out,
      unfold pending_of in refl,
      offer-queued b.buffer_size id e b.subscribers,
    )
