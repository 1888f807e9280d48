-- ===== src/Pipeline/Stages.antt =====
-- internal/pipeline/pipeline.go: the loops of the request and response stages, and the pause behind
-- them.
use sniffy.Common.{
  ◌≡◌, ◌≢◌, refl, ◌⊎◌, inl, inr, Bool, true, false, not, ◌&&◌, ◌||◌, List, [], ◌∷◌, ◌++◌, arith,
  if◌then◌else◌, if_elim, Bool-cases,
}
use sniffy.Common.Int.{pos}
use sniffy.Common.Bytes.{Text, codes}
use sniffy.Flow.{Flow, Phase, Decision, abort, continue_decision, merge, abort_decision}
use sniffy.Breakpoint.Pause.{World, Wake}
use sniffy.Breakpoint.{should_break_for}
use sniffy.Pipeline.Hooks.{panicked, Hook}
use sniffy.Pipeline.Run.{
  Stage, Progress, run, ends, safe, absorb, is_breakpoint, pause, maybe_pause, is_abort,
}

-- Running one hook: whether it is skipped, and what the loop goes on with.
unfoldable pub skips : Text → Hook Flow → Bool
skips url h = not h.enabled || not (h.matches url)

abbrev after : Progress → Hook Flow → Progress
after s h = absorb s (safe (h.call s.flow))

-- A request for a pause does not touch the merged decision.
ends-absorb :
    (stage : Stage) (s : Progress) (c : Flow × Decision)
    → ends stage s.decision ≡ false
    → (not (is_breakpoint c.1) && ends stage (absorb s c).decision)
      ≡ ends stage (absorb s c).decision
unfolding absorb
ends-absorb stage s c e = ground arith

run-cons :
    (stage : Stage) (url : Text) (h : Hook Flow) (hs : List (Hook Flow)) (s : Progress)
    → ends stage s.decision ≡ false
    → run stage url (h ∷ hs) s ≡ (
        if skips url h
        then run stage url hs s
        else if ends stage (after s h).decision
        then after s h
        else run stage url hs (after s h))
unfolding run skips
run-cons stage url h hs s e = rw (ends-absorb stage s (safe (h.call s.flow)) e)

-- From a decision that does not end the stage: once the merged decision ends it, no later hook runs;
-- otherwise the later hooks run on what the earlier ones left: the flow, the merged decision, and the
-- wish for a pause.
pub run-append :
    (stage : Stage) (url : Text) (xs ys : List (Hook Flow)) (s : Progress)
    → ends stage s.decision ≡ false
    → run stage url (xs ++ ys) s ≡ (
        if ends stage (run stage url xs s).decision
        then run stage url xs s
        else run stage url ys (run stage url xs s))
run-append stage url [] ys s e = unfold run in rw e
run-append stage url (h ∷ hs) ys s e =
    rw (run-cons stage url h (hs ++ ys) s e, run-cons stage url h hs s e)
      (elim (Bool-cases (skips url h)) [
        | inl k ↦ rw k (run-append stage url hs ys s e)
        | inr k ↦ elim (Bool-cases (ends stage (after s h).decision)) [
          | inl d ↦ rw (k, d) (rw d refl)
          | inr d ↦ rw (k, d) (run-append stage url hs ys (after s h) d)
        ]
      ])

-- The decisions that a stage comes to: a stage that starts from `Continue` never ends in
-- `Breakpoint`, whatever the hooks say.
merge-breakpoint :
    (d e : Decision)
    → is_breakpoint d ≡ false
    → is_breakpoint e ≡ false
    → is_breakpoint (merge d e) ≡ false
unfolding merge
merge-breakpoint d e p q = if_elim (λ x. is_breakpoint x ≡ false) _ e d (λ _. q) (λ _. p)

absorb-breakpoint :
    (s : Progress) (c : Flow × Decision)
    → is_breakpoint s.decision ≡ false
    → is_breakpoint (absorb s c).decision ≡ false
unfolding absorb
absorb-breakpoint s c p =
    if_elim (λ (x : Progress). is_breakpoint x.decision ≡ false) (is_breakpoint c.1) _ _ (λ _. p)
      (λ q. merge-breakpoint s.decision c.1 p q)

run-breakpoint :
    (stage : Stage) (url : Text) (hs : List (Hook Flow)) (s : Progress)
    → is_breakpoint s.decision ≡ false
    → is_breakpoint (run stage url hs s).decision ≡ false
unfolding run
run-breakpoint stage url [] s p = p
run-breakpoint stage url (h ∷ hs) s p =
    let P : Progress → Type 0 = λ x. is_breakpoint x.decision ≡ false in
    let q = absorb-breakpoint s (safe (h.call s.flow)) p in
    if_elim P (not h.enabled || not (h.matches url)) _ _ (λ _. run-breakpoint stage url hs s p)
      λ _. if_elim P _ _ _ (λ _. q) λ _. run-breakpoint stage url hs (after s h) q

merge-continue : (d : Decision) → merge d continue_decision ≡ d
unfolding merge continue_decision
merge-continue d = ground arith

absorb-continue : (s : Progress) → absorb s (s.flow, continue_decision) ≡ s
unfolding absorb continue_decision
absorb-continue s = λ i. record s { decision = merge-continue s.decision i }

-- A hook that does nothing: it is disabled, or does not match the URL, or panics with no edit made.
abbrev pub DoesNothing : Text → Hook Flow → Type 0
DoesNothing url h =
    (h.enabled ≡ false) ⊎ ((h.matches url ≡ false) ⊎ ((f : Flow) → h.call f ≡ panicked f))

DoesNothing-cases :
    (url : Text) (h : Hook Flow) (s : Progress)
    → DoesNothing url h
    → (skips url h ≡ true) ⊎ (after s h ≡ s)
unfolding skips
DoesNothing-cases url h s (inl off) = inl (ground arith)
DoesNothing-cases url h s (inr (inl off)) = inl (ground arith)
DoesNothing-cases url h s (inr (inr panics)) =
    inr (rw (panics s.flow) (unfold safe in absorb-continue s))

run-cons_without :
    (stage : Stage) (url : Text) (h : Hook Flow) (hs : List (Hook Flow)) (s : Progress)
    → ends stage s.decision ≡ false
    → DoesNothing url h
    → run stage url (h ∷ hs) s ≡ run stage url hs s
run-cons_without stage url h hs s e why =
    rw (run-cons stage url h hs s e) (elim (DoesNothing-cases url h s why) [
      | inl k ↦ rw k
      | inr same ↦ elim (Bool-cases (skips url h)) [ inl k ↦ rw k | inr k ↦ rw (k, same, e) ]
    ])

-- From a decision that does not end the stage: a hook that is off, does not match the URL, or always
-- panics before it edits the flow may as well be left out, wherever it stands.
pub run_without :
    (stage : Stage) (url : Text) (xs ys : List (Hook Flow)) (h : Hook Flow) (s : Progress)
    → ends stage s.decision ≡ false
    → DoesNothing url h
    → run stage url (xs ++ h ∷ ys) s ≡ run stage url (xs ++ ys) s
run_without stage url xs ys h s e why =
    rw (run-append stage url xs (h ∷ ys) s e, run-append stage url xs ys s e)
      (elim (Bool-cases (ends stage (run stage url xs s).decision)) [
        | inl d ↦ rw d
        | inr d ↦ rw d (run-cons_without stage url h ys (run stage url xs s) d why)
      ])

-- Whether a stage's flow is to stop: a hook has asked for it, or a switch or rule says so.
abbrev pub wants_pause : World → Text → Phase → Bool → Bool
wants_pause w url phase asked = asked || (should_break_for w.manager url phase).1

-- The world in which `Pause` starts: looking at the rules may have filled their caches.
abbrev pub looked_up : World → Text → Phase → Bool → World
looked_up w url phase asked =
    if asked then w else record w { manager = (should_break_for w.manager url phase).0 }

-- The decision behind a pause: an aborted flow is never paused; a flow that nobody wants to stop
-- goes on with its decision; a paused one keeps its decision, unless the UI aborts it.
pub maybe_pause_cases :
    (w : World) (meanwhile : World → World) (wake : Wake) (f : Flow) (phase : Phase) (url : Text)
    (d : Decision) (asked : Bool)
    → let out = maybe_pause w meanwhile wake f phase url d asked in
      let p = pause (looked_up w url phase asked) meanwhile wake f phase in
      ((d.kind ≡ abort) × (out ≡ (w, f, d)))
      ⊎ (((d.kind ≢ abort)
            × (wants_pause w url phase asked ≡ false)
            × (out.0 ≡ looked_up w url phase asked)
            × (out.1 ≡ f)
            × (out.2 ≡ d))
          ⊎ ((d.kind ≢ abort)
              × (wants_pause w url phase asked ≡ true)
              × (out.0 ≡ p.0)
              × (out.1 ≡ p.1)
              × (out.2
                  ≡ (if p.2 then abort_decision (pos 0) (codes "aborted at breakpoint") else d))))
unfolding maybe_pause
maybe_pause_cases w meanwhile wake f phase url d asked = elim (Bool-cases (is_abort d)) [
  | inl e ↦ inl (unfold is_abort in ground (arith, e), rw e)
  | inr n ↦ elim (Bool-cases (wants_pause w url phase asked)) [
    | inl k ↦ inr (
        inr
          (ground (arith, n), k, ground (arith, n, k), ground (arith, n, k), ground (arith, n, k)))
    | inr k ↦ inr (
        inl
          (ground (arith, n), k, ground (arith, n, k), ground (arith, n, k), ground (arith, n, k)))
  ]
]
