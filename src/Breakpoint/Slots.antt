-- ===== src/Breakpoint/Slots.antt =====
-- internal/pipeline/breakpoint.go: goroutines that pause flows, the UI that answers them, and the
-- slots that they take.
use sniffy.Common.{
  ◌≤◌, ◌≡◌, ◌≢◌, refl, ap, sym, subst, ◌⊎◌, inl, inr, List, [], ◌∷◌, ◌++◌, Option, none, some,
  arith, leb, length, if_elim, All,
}
use sniffy.Common.Bytes.{Text}
use sniffy.Common.Dict.{remove, length-insert-le, length-remove-le, All-insert, All-remove}
use sniffy.Flow.{Flow, Phase}
use sniffy.Breakpoint.State.{Paused, ResumeMsg}
use sniffy.Breakpoint.Pause.{
  World, Waiting, Wake, received, timed_out, enter, settle, give_up, published, offer,
}

-- The world, the goroutines that wait in `Pause`, and the answers between `deliver`'s lock and its send.
pub record System : Type 0 where
  pub world : World
  pub waiting : List Waiting
  pub answering : List (Paused × ResumeMsg)

-- The goroutine that `enter` leaves waiting, if any.
abbrev pub joined : Option Waiting → List Waiting → List Waiting
joined none gs = gs
joined (some g) gs = g ∷ gs

-- A goroutine enters `Pause`; the UI finds a flow that it answers, and later sends the answer; a
-- waiting goroutine takes what its channel holds, or its time is up, or its `emit` has panicked.
pub data Step : System → System → Type 0 where
  entering :
      (s : System) (f : Flow) (phase : Phase)
      → Step s (record {
        world = (enter s.world f phase).0;
        waiting = joined (enter s.world f phase).1 s.waiting;
        answering = s.answering;
      })
  finding :
      (s : System) (id : Text) (p : Paused) (msg : ResumeMsg)
      → published s.world id ≡ some p
      → Step s (record s { answering = (p, msg) ∷ s.answering })
  sending :
      (s : System) (before after : List (Paused × ResumeMsg)) (p : Paused) (msg : ResumeMsg)
      → s.answering ≡ before ++ (p, msg) ∷ after
      → Step s (record s { world = (offer s.world p msg).0; answering = before ++ after })
  waking :
      (s : System) (before after : List Waiting) (g : Waiting) (msg : ResumeMsg)
      → s.waiting ≡ before ++ g ∷ after
      → s.world.channel g.resume ≡ some msg
      → Step s (record s { world = (settle s.world g (received msg)).0; waiting = before ++ after })
  expiring :
      (s : System) (before after : List Waiting) (g : Waiting)
      → s.waiting ≡ before ++ g ∷ after
      → Step s (record s { world = (settle s.world g timed_out).0; waiting = before ++ after })
  panicking :
      (s : System) (before after : List Waiting) (g : Waiting)
      → s.waiting ≡ before ++ g ∷ after
      → Step s (record s { world = give_up s.world g; waiting = before ++ after })

pub data Reach (s : System) : System → Type 0 where
  here : Reach s s
  next : {t u : System} → Reach s t → Step t u → Reach s u

-- Some goroutine waits for the entry's flow.
abbrev pub HasOwner : List Waiting → Text × Paused → Type 0
HasOwner [] e = ⊥
HasOwner (g ∷ gs) e = (g.flow.id ≡ e.0) ⊎ HasOwner gs e

pub record IsSound (s : System) : Type 0 where
  -- No more flows are paused than the limit allows.
  pub bounded : length s.world.manager.paused ≤ s.world.manager.max_open
  -- Every paused flow has a goroutine that will take it off the list.
  pub owned : All (HasOwner s.waiting) s.world.manager.paused

All-map {ℓ} :
    {A : Type ℓ} (P Q : A → Type 0) → ((a : A) → P a → Q a) → (xs : List A) → All P xs → All Q xs
All-map P Q f [] h = tt
All-map P Q f (x ∷ xs) h = (f x h.0, All-map P Q f xs h.1)

HasOwner-leave :
    (before after : List Waiting) (g : Waiting) (e : Text × Paused)
    → HasOwner (before ++ g ∷ after) e
    → e.0 ≢ g.flow.id
    → HasOwner (before ++ after) e
HasOwner-leave [] after g e (inl h) n = absurd (n (sym h))
HasOwner-leave [] after g e (inr h) n = h
HasOwner-leave (x ∷ before) after g e (inl h) n = inl h
HasOwner-leave (x ∷ before) after g e (inr h) n = inr (HasOwner-leave before after g e h n)

enter-IsSound :
    (s : System) (f : Flow) (phase : Phase)
    → IsSound s
    → IsSound (record {
      world = (enter s.world f phase).0;
      waiting = joined (enter s.world f phase).1 s.waiting;
      answering = s.answering;
    })
unfolding enter
enter-IsSound s f phase v =
    if_elim
      (λ (out : World × Option Waiting).
        IsSound (record s { world = out.0; waiting = joined out.1 s.waiting }))
      (leb s.world.manager.max_open (length s.world.manager.paused)) _ _ (λ full. v)
      λ room. record {
        bounded = grind (arith, length-insert-le, v.bounded);
        owned =
            All-insert _ f.id _ s.world.manager.paused (inl refl)
              (All-map (HasOwner s.waiting) _ (λ e h. inr h) s.world.manager.paused v.owned);
      }

offer-manager : (w : World) (p : Paused) (msg : ResumeMsg) → (offer w p msg).0.manager ≡ w.manager
unfolding offer
offer-manager w p msg = ground arith

-- Taking a goroutine's flow off the list, once or more, as it leaves.
leave-IsSound :
    (s : System) (before after : List Waiting) (g : Waiting) (w : World)
    → s.waiting ≡ before ++ g ∷ after
    → w.manager ≡ record s.world.manager { paused = remove g.flow.id s.world.manager.paused }
    → IsSound s
    → IsSound (record s { world = w; waiting = before ++ after })
leave-IsSound s before after g w e m v = record {
  bounded = rw m (omega (arith, length-remove-le g.flow.id s.world.manager.paused, v.bounded));
  owned = rw m (
      All-map _ (HasOwner (before ++ after))
        (λ x h. HasOwner-leave before after g x (subst (λ ws. HasOwner ws x) e h.0) h.1) _
        (All-remove (HasOwner s.waiting) g.flow.id s.world.manager.paused v.owned));
}

remove_again : {V : Type 0} (k : Text) (m : List (Text × V)) → remove k (remove k m) ≡ remove k m
unfolding remove
remove_again k [] = refl
remove_again k ((j, v) ∷ m) = ground (arith, remove_again k m)

settle-IsSound :
    (s : System) (before after : List Waiting) (g : Waiting) (wake : Wake)
    → s.waiting ≡ before ++ g ∷ after
    → IsSound s
    → IsSound (record s { world = (settle s.world g wake).0; waiting = before ++ after })
unfolding settle
settle-IsSound s before after g wake e v =
    leave-IsSound s before after g (settle s.world g wake).0 e
      (ap (λ m. record s.world.manager { paused = m })
        (remove_again g.flow.id s.world.manager.paused))
      v

Step-IsSound : {s t : System} → Step s t → IsSound s → IsSound t
Step-IsSound (entering s f phase) v = enter-IsSound s f phase v
Step-IsSound (finding s id p msg e) v = record { bounded = v.bounded; owned = v.owned }
Step-IsSound (sending s before after p msg e) v = record {
  bounded = rw (offer-manager s.world p msg) v.bounded;
  owned = rw (offer-manager s.world p msg) v.owned;
}
Step-IsSound (waking s before after g msg e c) v =
    settle-IsSound s before after g (received msg) e v
Step-IsSound (expiring s before after g e) v = settle-IsSound s before after g timed_out e v
Step-IsSound (panicking s before after g e) v =
    unfold give_up in leave-IsSound s before after g (give_up s.world g) e refl v

-- Whatever goroutines enter, answer, wake, time out and panic in any order, no more flows are paused than
-- the limit, and each paused flow has a goroutine that will take it off the list, if this was so at
-- the start.
pub Reach-IsSound : {s t : System} → Reach s t → IsSound s → IsSound t
Reach-IsSound here v = v
Reach-IsSound (next r st) v = Step-IsSound st (Reach-IsSound r v)
