-- ===== src/Stream/Scan.antt =====
-- capture/processors/http/streaming.go: the loop that both scanners run over their buffer, and why
-- it does not matter how the bytes arrive.
use sniffy.Common.{
  ℕ, zero, suc, ◌≤◌, ◌≡◌, refl, ap, ◌∙◌, ◌⊎◌, inl, inr, Bool, true, false, List, [], ◌∷◌, ◌++◌,
  append_assoc, arith, length, take, drop, length-drop, take-append-drop, drop-append_le,
}
use sniffy.Common.Bytes.{Bytes}

-- What the front of the buffer holds: an item and the number of its bytes, not enough bytes, or
-- something at which the scanner gives up.
pub data Next (A : Type 0) : Type 0 where
  item : A → ℕ → Next A
  wait : Next A
  stop : Next A

-- The items, what is left in the buffer, and whether the scanner has given up.
pub record Scanned (A : Type 0) : Type 0 where
  pub items : List A
  pub rest : Bytes
  pub stopped : Bool

module _ {A : Type 0} where
  unfoldable pub with_item : A → Scanned A → Scanned A
  with_item a s = record s { items = a ∷ s.items }

  -- The loop, on fuel; a round takes at least one byte.
  unfoldable pub drain : (Bytes → Next A) → ℕ → Bytes → Scanned A
  unfolding with_item
  drain next zero buf = record { items = []; rest = buf; stopped = false }
  drain next (suc f) buf = elim (next buf) [
    | item a n ↦ with_item a (drain next f (drop n buf))
    | wait ↦ record { items = []; rest = buf; stopped = false }
    | stop ↦ record { items = []; rest = buf; stopped = true }
  ]

  unfoldable pub scan : (Bytes → Next A) → Bytes → Scanned A
  unfolding drain
  scan next buf = drain next (length buf) buf

-- A look at the front is final: more bytes behind it change neither an item nor a stop. An item has
-- some bytes, and they are all there; an empty buffer has none.
pub record IsStable {A : Type 0} (next : Bytes → Next A) : Type 0 where
  pub item_stays : (x q : Bytes) (a : A) (n : ℕ) → next x ≡ item a n → next (x ++ q) ≡ item a n
  pub item_fits : (x : Bytes) (a : A) (n : ℕ) → next x ≡ item a n → (1 ≤ n) × (n ≤ length x)
  pub stop_stays : (x q : Bytes) → next x ≡ stop → next (x ++ q) ≡ stop
  pub empty_waits : next [] ≡ wait

module _ {A : Type 0} (next : Bytes → Next A) (s : IsStable next) where
  Next-cases : (n : Next A) → ((a : A) × (k : ℕ) × (n ≡ item a k)) ⊎ ((n ≡ wait) ⊎ (n ≡ stop))
  Next-cases (item a k) = inl (a, k, refl)
  Next-cases wait = inr (inl refl)
  Next-cases stop = inr (inr refl)

  -- More fuel than bytes makes no difference.
  drain_fuel : (f g : ℕ) (x : Bytes) → length x ≤ f → length x ≤ g → drain next f x ≡ drain next g x
  unfolding drain
  drain_fuel zero zero x p q = refl
  drain_fuel zero (suc g) [] p q = rw (s.empty_waits, drain)
  drain_fuel (suc f) zero [] p q = rw (s.empty_waits, drain)
  drain_fuel zero (suc g) (b ∷ x) p q = absurd (omega arith)
  drain_fuel (suc f) zero (b ∷ x) p q = absurd (omega arith)
  drain_fuel (suc f) (suc g) x p q = elim (Next-cases (next x)) [
    | inl (a, k, e) ↦
        let fits = s.item_fits x a k e in
        rw (e, drain)
          (ap (with_item a) (
            drain_fuel f g (drop k x) (omega (arith, length-drop k x, fits.0, fits.1))
              (omega (arith, length-drop k x, fits.0, fits.1))))
    | inr (inl e) ↦ rw (e, drain)
    | inr (inr e) ↦ rw (e, drain)
  ]

  -- Scanning what is left, with more bytes behind it, after the first items.
  abbrev pub resumed : Scanned A → Bytes → Scanned A
  resumed r q =
      let t = scan next (r.rest ++ q) in
      record { items = r.items ++ t.items; rest = t.rest; stopped = t.stopped }

  pub scan_item :
      (x : Bytes) (a : A) (k : ℕ)
      → next x ≡ item a k
      → scan next x ≡ with_item a (scan next (drop k x))
  unfolding scan drain
  scan_item [] a k e = ground (arith, s.empty_waits)
  scan_item (b ∷ x) a k e =
      let fits = s.item_fits (b ∷ x) a k e in
      rw (e, drain)
        (ap (with_item a) (
          drain_fuel (length x) (length (drop k (b ∷ x))) (drop k (b ∷ x))
            (omega (arith, length-drop k (b ∷ x), fits.0)) (omega arith)))

  drain-append :
      (f : ℕ) (x q : Bytes) → length x ≤ f → scan next (x ++ q) ≡ resumed (drain next f x) q
  unfolding drain
  drain-append zero x q h = refl
  drain-append (suc f) x q h = elim (Next-cases (next x)) [
    | inl (a, k, e) ↦
        let fits = s.item_fits x a k e in
        rw (e, drain)
          (scan_item (x ++ q) a k (s.item_stays x q a k e)
            ∙ rw (drop-append_le k x q fits.1) (
                ap (with_item a)
                  (drain-append f (drop k x) q (omega (arith, length-drop k x, fits.0)))))
    | inr (inl e) ↦ rw (e, drain)
    | inr (inr e) ↦ rw (e, drain)
  ]

  -- It does not matter how the bytes are cut: scanning some of them, and then what is left of them
  -- with the others, gives the same items and leaves the same as scanning them all at once.
  pub scan-append : (x q : Bytes) → scan next (x ++ q) ≡ resumed (scan next x) q
  scan-append x q = unfold scan in drain-append (length x) x q (omega arith)

  -- Where the scanner has given up, it gives up again.
  drain_stopped :
      (f : ℕ) (x : Bytes) → (drain next f x).stopped ≡ true → next (drain next f x).rest ≡ stop
  unfolding drain
  drain_stopped zero x h = cc
  drain_stopped (suc f) x h = elim (Next-cases (next x)) [
    | inl (a, k, e) ↦ rw (e, drain) (drain_stopped f (drop k x) (rw (e, drain) at h))
    | inr (inl e) ↦ absurd (ground (arith, e))
    | inr (inr e) ↦ rw (e, drain) e
  ]

  scan_at_stop :
      (y : Bytes) → next y ≡ stop → scan next y ≡ record { items = []; rest = y; stopped = true }
  unfolding scan drain
  scan_at_stop [] e = absurd (ground (arith, s.empty_waits))
  scan_at_stop (b ∷ y) e = rw e

  pub resumed_stopped :
      (x q : Bytes)
      → (scan next x).stopped ≡ true
      → scan next ((scan next x).rest ++ q)
        ≡ record { items = []; rest = (scan next x).rest ++ q; stopped = true }
  resumed_stopped x q h = scan_at_stop ((scan next x).rest ++ q) (
      s.stop_stays (scan next x).rest q
        (unfold scan in drain_stopped (length x) x (unfold scan in h)))

  module _ (raw : A → Bytes)
      (keeps : (x : Bytes) (a : A) (n : ℕ) → next x ≡ item a n → raw a ≡ take n x) where
    abbrev pub flat : List A → Bytes
    flat [] = []
    flat (a ∷ more) = raw a ++ flat more

    drain_keeps : (f : ℕ) (x : Bytes) → flat (drain next f x).items ++ (drain next f x).rest ≡ x
    unfolding drain
    drain_keeps zero x = refl
    drain_keeps (suc f) x = elim (Next-cases (next x)) [
      | inl (a, k, e) ↦
          let d = drain next f (drop k x) in
          rw (e, drain)
            (append_assoc (raw a) (flat d.items) d.rest
              ∙ ap (◌++◌ (raw a)) (drain_keeps f (drop k x))
              ∙ ap (λ r. r ++ drop k x) (keeps x a k e)
              ∙ take-append-drop k x)
      | inr (inl e) ↦ rw (e, drain)
      | inr (inr e) ↦ rw (e, drain)
    ]

    -- No byte is lost or made up: the items' bytes and what is left are what was scanned.
    pub scan_keeps : (x : Bytes) → flat (scan next x).items ++ (scan next x).rest ≡ x
    scan_keeps x = unfold scan in drain_keeps (length x) x
