-- ===== src/Throttle/Writing.antt =====
-- capture/throttle.go: what a throttled `Write` has done when it returns.
use sniffy.Common.{
  ℕ, zero, suc, ◌+◌, ◌≤◌, ◌≡◌, refl, ap, sym, ◌∙◌, ◌⊎◌, inl, inr, Bool, true, false, not, [], ◌∷◌,
  ◌++◌, append_assoc, append-nil, none, arith, ◌==◌, length, take, drop, length-drop, if_elim,
  Option-cases, ◌≢◌,
}
use sniffy.Common.Int.{ℤ, is_pos, pos_part}
use sniffy.Common.Bytes.{Bytes}
use sniffy.Throttle.Conn.{
  min_chunk, max_chunk, throttle_chunk_size, chunk_of, Connection, IsWriter, Written, error_of,
  write_loop, write,
}

pub chunk_bounds :
    (rate : ℕ) → (min_chunk ≤ throttle_chunk_size rate) × (throttle_chunk_size rate ≤ max_chunk)
unfolding throttle_chunk_size
chunk_bounds rate = ground arith

chunk_of_fits :
    (rate b : ℕ) (p : Bytes)
    → (1 ≤ chunk_of rate (b ∷ p)) × (chunk_of rate (b ∷ p) ≤ length (b ∷ p))
unfolding chunk_of
chunk_of_fits rate b p = ground (arith, chunk_bounds rate)

-- What a call has done, from `w` on, with the bytes `p`.
record Progressed (w : Written) (p : Bytes) (out : Written) : Type 0 where
  pub taken : ℕ
  pub counted : out.total ≡ w.total + taken
  pub bounded : taken ≤ length p
  pub in_order : out.sent ≡ w.sent ++ take taken p
  pub whole : (out.error ≡ none) → taken ≡ length p

take-take : (m n : ℕ) (p : Bytes) → m ≤ n → take m (take n p) ≡ take m p
take-take zero n p h = refl
take-take (suc m) zero p h = absurd (omega arith)
take-take (suc m) (suc n) [] h = refl
take-take (suc m) (suc n) (b ∷ p) h = ap (◌∷◌ b) (take-take m n p (omega arith))

length-take_le : (n : ℕ) (p : Bytes) → n ≤ length p → length (take n p) ≡ n
length-take_le zero p h = refl
length-take_le (suc n) [] h = absurd (omega arith)
length-take_le (suc n) (b ∷ p) h = omega (arith, length-take_le n p (omega arith))

take-nil : (n : ℕ) → take {A = ℕ} n [] ≡ []
take-nil zero = refl
take-nil (suc n) = refl

take-drop : (m n : ℕ) (p : Bytes) → take m p ++ take n (drop m p) ≡ take (m + n) p
take-drop zero n p = ap (λ k. take k p) (omega arith)
take-drop (suc m) zero [] = sym (take-nil (suc m + 0))
take-drop (suc m) (suc n) [] = sym (take-nil (suc m + suc n))
take-drop (suc m) n (b ∷ p) = ap (◌∷◌ b) (take-drop m n p) ∙ ap (λ k. take k (b ∷ p)) suc_plus
  where
    suc_plus : suc (m + n) ≡ suc m + n
    suc_plus = omega arith

error_of-none : (failed : Bool) → error_of failed ≡ none → failed ≡ false
unfolding error_of
error_of-none true q = absurd (cc q)
error_of-none false q = refl

-- A chunk of `n` bytes, and then the rest.
onward :
    (w : Written) (p : Bytes) (n : ℕ) (w' : Written)
    → w'.sent ≡ w.sent ++ take n p
    → n ≤ length p
    → (out : Written) → w'.total ≡ w.total + n
    → Progressed w' (drop n p) out
    → Progressed w p out
onward w p n w' s h out t g = record {
  taken = n + g.taken;
  counted = omega (arith, t, g.counted);
  bounded = omega (arith, g.bounded, length-drop n p);
  in_order =
      g.in_order
      ∙ ap (λ x. x ++ take g.taken (drop n p)) s
      ∙ append_assoc w.sent (take n p) (take g.taken (drop n p))
      ∙ ap (◌++◌ w.sent) (take-drop n g.taken p);
  whole = λ q. omega (arith, g.whole q, length-drop n p);
}

write_loop-Progressed :
    (rate : ℕ → ℤ) (conn : Connection)
    → IsWriter conn
    → (f k : ℕ) (p : Bytes) (w : Written) → length p ≤ f
    → w.error ≡ none
    → Progressed w p (write_loop rate conn f k p w)
unfolding write_loop
write_loop-Progressed rate conn c zero k [] w h e = record {
  taken = 0;
  counted = omega arith;
  bounded = omega arith;
  in_order = sym (append-nil w.sent);
  whole = λ _. refl;
}
write_loop-Progressed rate conn c zero k (b ∷ p) w h e = absurd (omega arith)
write_loop-Progressed rate conn c (suc f) k [] w h e = record {
  taken = 0;
  counted = omega arith;
  bounded = omega arith;
  in_order = sym (append-nil w.sent);
  whole = λ _. refl;
}
write_loop-Progressed rate conn c (suc f) k (b ∷ p) w h e =
    let now = pos_part (rate k) in
    let n = chunk_of now (b ∷ p) in
    let fit = chunk_of_fits now b p in
    let chunk = take n (b ∷ p) in
    let part = conn w.sent chunk in
    let small : part.0 ≤ n = omega (arith, c.fits w.sent chunk, length-take_le n (b ∷ p) fit.1) in
    let sent : w.sent ++ take part.0 chunk ≡ w.sent ++ take part.0 (b ∷ p) =
      ap (◌++◌ w.sent) (take-take part.0 n (b ∷ p) small) in
    let P : Written → Type 0 = Progressed w (b ∷ p) in
    if_elim P (not (is_pos (rate k))) _ _
      (λ _. record {
        taken = (conn w.sent (b ∷ p)).0;
        counted = refl;
        bounded = c.fits w.sent (b ∷ p);
        in_order = refl;
        whole = λ q. c.complete w.sent (b ∷ p) (error_of-none _ q);
      })
      λ _.
        if_elim P part.1 _ _
          (λ _. record {
            taken = part.0;
            counted = refl;
            bounded = omega (arith, small, fit.1);
            in_order = sent;
            whole = λ q. absurd (cc q);
          })
          λ _.
            if_elim P (part.0 == 0) _ _
              (λ _. record {
                taken = part.0;
                counted = refl;
                bounded = omega (arith, small, fit.1);
                in_order = sent;
                whole = λ q. absurd (cc q);
              })
              λ some_taken. onward w (b ∷ p) part.0 _ sent (omega (arith, small, fit.1)) _ refl (
                write_loop-Progressed rate conn c f (k + 1) (drop part.0 (b ∷ p)) _
                  (ground (arith, length-drop part.0 (b ∷ p))) refl)

-- Over any connection that keeps the contract of a writer, and whatever happens to the rate
-- meanwhile, a throttled `Write` gives the connection the bytes in order and without gaps, counts
-- those that it has taken, and reports an error unless all of them are.
pub write-IsComplete :
    (rate : ℕ → ℤ) (conn : Connection) (sent p : Bytes)
    → IsWriter conn
    → let out = write rate conn sent p in
      (out.total ≤ length p)
      × (out.sent ≡ sent ++ take out.total p)
      × ((out.error ≢ none) ⊎ (out.total ≡ length p))
unfolding write
write-IsComplete rate conn sent p c =
    let w : Written = record { sent = sent; total = 0; slept = 0; error = none } in
    let g = write_loop-Progressed rate conn c (length p) 0 p w (omega arith) refl in
    let out = write_loop rate conn (length p) 0 p w in
    let same : g.taken ≡ out.total = omega (arith, g.counted) in
    (
      omega (arith, same, g.bounded),
      g.in_order ∙ ap (λ n. sent ++ take n p) same,
      elim (Option-cases out.error) [
        | inl e ↦ inr (omega (arith, same, g.whole e))
        | inr (x, e) ↦ inl (λ q. cc)
      ],
    )
