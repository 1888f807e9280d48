-- ===== src/Flow/StatusLine.antt =====
-- internal/flow/http.go: numbers as decimal digits, and the status line.
use sniffy.Common.{
  ℕ, zero, suc, ◌+◌, ◌-◌, ◌*◌, ◌/◌, ◌%◌, ◌^◌, ◌≤◌, ◌<◌, ◌≡◌, ◌≢◌, refl, ap, sym, ◌∙◌, inl, inr,
  true, false, [], ◌∷◌, Option, none, some, arith, All, ◌==◌, ==_iff, ◌⊎◌,
}
use native.Mathlib.Nat.{pow-suc}
use sniffy.Common.Int.{ℤ, pos, negsuc}
use sniffy.Common.Bytes.{Text}
use sniffy.Flow.Wire.{Wire, digits, itoa, digits_value, positive, negated, atoi}

-- The last digit of a number, behind the others.
last_digit : (n : ℕ) (s : Text) → digits_value (n / 10) ((48 + n % 10) ∷ s) ≡ digits_value n s
unfolding digits_value
last_digit n s = let e : n / 10 * 10 + (48 + n % 10 - 48) ≡ n = omega arith in rw e (ground arith)

digits-value : (f n : ℕ) (s : Text) → n < 10 ^ f → digits_value 0 (digits f n s) ≡ digits_value n s
unfolding digits
digits-value zero zero s h = refl
digits-value zero (suc n) s h = absurd (omega arith)
digits-value (suc f) zero s h = refl
digits-value (suc f) (suc n) s h =
    let p = pow-suc 10 f in
    let ih = digits-value f (suc n / 10) ((48 + suc n % 10) ∷ s) (omega (arith, p)) in
    ih ∙ last_digit (suc n) s

-- A digit is neither a sign nor a space.
abbrev IsDigit : ℕ → Type 0
IsDigit c = 48 ≤ c

digits-IsDigit : (f n : ℕ) (s : Text) → All IsDigit s → All IsDigit (digits f n s)
unfolding digits
digits-IsDigit zero n s a = a
digits-IsDigit (suc f) zero s a = a
digits-IsDigit (suc f) (suc n) s a =
    digits-IsDigit f (suc n / 10) ((48 + suc n % 10) ∷ s) (omega arith, a)

itoa-IsDigit : (n : ℕ) → All IsDigit (itoa (pos n))
unfolding itoa
itoa-IsDigit zero = (omega arith, tt)
itoa-IsDigit (suc n) = digits-IsDigit 20 (suc n) [] tt

itoa-digits_value : (n : ℕ) → n < 10 ^ 20 → digits_value 0 (itoa (pos n)) ≡ some n
unfolding itoa
itoa-digits_value zero h = unfold digits_value in refl
itoa-digits_value (suc n) h = digits-value 20 (suc n) [] h ∙ unfold digits_value in refl

atoi-digits :
    (s : Text) (n : ℕ)
    → n < 2 ^ 63
    → All IsDigit s
    → digits_value 0 s ≡ some n
    → (s ≡ []) ⊎ (atoi s ≡ some (pos n))
unfolding atoi positive
atoi-digits [] n h a e = inl refl
atoi-digits (c ∷ []) n h a e = inr (rw (e, positive) (ground arith))
atoi-digits (c ∷ d ∷ s) n h a e = inr (ground (arith, ==_iff c 45, ==_iff c 43, a.0, e))

some_zero : (n : ℕ) → some (suc n) ≡ digits_value 0 [] → true ≡ false
unfolding digits_value
some_zero n e = absurd (ground (arith, e))

itoa_not_nil : (n : ℕ) → n < 10 ^ 20 → itoa (pos n) ≢ []
itoa_not_nil zero h = unfold itoa in λ e. absurd cc
itoa_not_nil (suc n) h = λ e.
    let a = sym (itoa-digits_value (suc n) h) ∙ ap (digits_value 0) e in absurd (cc (some_zero n a))

atoi-minus :
    (s : Text) (n : ℕ)
    → n < 2 ^ 63
    → digits_value 0 s ≡ some (suc n)
    → atoi (45 ∷ s) ≡ some (negsuc n)
unfolding atoi negated
atoi-minus [] n h e = absurd (cc (some_zero n (sym e)))
atoi-minus (d ∷ s) n h e = rw (e, negated) (ground arith)

-- An int64, but for the least one.
abbrev pub IsWritable : ℤ → Type 0
IsWritable (pos n) = n < 2 ^ 63
IsWritable (negsuc n) = suc n < 2 ^ 63

itoa-negsuc : (n : ℕ) → suc n < 2 ^ 63 → itoa (negsuc n) ≡ 45 ∷ digits 20 (suc n) []
unfolding itoa
itoa-negsuc n h = let e : (suc n == 2 ^ 63) ≡ false = ground arith in rw e

-- Reading the digits of an int64, except for the least one, gives the number: the 20 places of the
-- buffer are enough.
pub atoi-itoa : (z : ℤ) → IsWritable z → atoi (itoa z) ≡ some z
atoi-itoa (pos n) h =
    let k : n < 10 ^ 20 = omega arith in
    elim (atoi-digits (itoa (pos n)) n h (itoa-IsDigit n) (itoa-digits_value n k)) [
      | inl e ↦ absurd (itoa_not_nil n k e)
      | inr e ↦ e
    ]
atoi-itoa (negsuc n) h =
    let d : digits_value 0 (digits 20 (suc n) []) ≡ some (suc n) =
      digits-value 20 (suc n) [] (omega arith) ∙ unfold digits_value in refl in
    ap atoi (itoa-negsuc n h) ∙ atoi-minus (digits 20 (suc n) []) n (omega arith) d

abbrev IsNoSpace : ℕ → Type 0
IsNoSpace c = c ≢ 32

abbrev NoSpace : Option Text → Type 0
NoSpace none = Unit
NoSpace (some t) = All IsNoSpace t
