-- ===== src/Common/Binary.antt =====
-- Big-endian integers, exact reads, and exclusive or.
use Prim.Native.Nat.{
  ℕ, zero, suc, ◌+◌, ◌*◌, ◌/◌, ◌%◌, ◌^◌, ◌≤◌, ◌<◌, bit_xor, digits, differ, bit_xor-bitwise,
}
use native.Mathlib.Nat.{pow-suc}
use mathlib.Core.Path.{◌≡◌, refl}
use mathlib.Core.Bool.{Bool, true, ◌&&◌}
use mathlib.Core.List.{[], ◌∷◌, ◌++◌}
use mathlib.Core.Option.{Option, none, some}
use native.Mathlib.Omega.{arith}
use sniffy.Common.Tests.{leb, if◌then◌else◌, le→leb}
use sniffy.Common.Lists.{length, take, drop, take-append, drop-append, length-append}
use sniffy.Common.Bytes.{Bytes}

-- Every value below a bound, by evaluation.
unfoldable pub passes_below : ℕ → (ℕ → Bool) → Bool
passes_below zero test = true
passes_below (suc k) test = passes_below k test && test k

pub passes_below_sound :
    (test : ℕ → Bool) (k : ℕ) → passes_below k test ≡ true → (i : ℕ) → i < k → test i ≡ true
unfolding passes_below
passes_below_sound test zero all i h = absurd (omega arith)
passes_below_sound test (suc k) all i h = ground (arith, passes_below_sound test k (ground arith) i)

-- `io.ReadFull` of `n` bytes: the bytes and what is left, or nothing.
unfoldable pub read_full : ℕ → Bytes → Option (Bytes × Bytes)
read_full n s = if leb n (length s) then some (take n s, drop n s) else none

pub read_full-append :
    (xs ys : Bytes) (n : ℕ) → n ≡ length xs → read_full n (xs ++ ys) ≡ some (xs, ys)
unfolding read_full
read_full-append xs ys n e = rw (
  e,
  le→leb (length xs) (length (xs ++ ys)) (omega (arith, length-append xs ys)),
  take-append xs ys,
  drop-append xs ys,
)

-- `binary.BigEndian.Uint16` and so on: the number that the bytes stand for.
unfoldable pub big_endian : ℕ → Bytes → ℕ
big_endian acc [] = acc
big_endian acc (b ∷ bs) = big_endian (acc * 256 + b) bs

-- `binary.BigEndian.PutUint16` and so on: the lowest `k` bytes of a number, highest first.
unfoldable pub put_big_endian : ℕ → ℕ → Bytes
put_big_endian zero n = []
put_big_endian (suc k) n = put_big_endian k (n / 256) ++ (n % 256) ∷ []

big_endian-snoc :
    (acc : ℕ) (bs : Bytes) (b : ℕ) → big_endian acc (bs ++ b ∷ []) ≡ big_endian acc bs * 256 + b
unfolding big_endian
big_endian-snoc acc [] b = refl
big_endian-snoc acc (x ∷ bs) b = big_endian-snoc (acc * 256 + x) bs b

pub length-put_big_endian : (k n : ℕ) → length (put_big_endian k n) ≡ k
unfolding put_big_endian
length-put_big_endian zero n = refl
length-put_big_endian (suc k) n = omega (
  arith,
  length-append (put_big_endian k (n / 256)) ((n % 256) ∷ []),
  length-put_big_endian k (n / 256),
)

pub big_endian-put : (k n : ℕ) → n < 256 ^ k → big_endian 0 (put_big_endian k n) ≡ n
unfolding put_big_endian
big_endian-put zero n h = unfold big_endian in omega arith
big_endian-put (suc k) n h = omega (
  arith,
  big_endian-snoc 0 (put_big_endian k (n / 256)) (n % 256),
  big_endian-put k (n / 256) (omega (arith, pow-suc 256 k)),
)

abbrev xor_digits : ℕ → ℕ → ℕ → ℕ
xor_digits f x y = digits (λ y. y) differ f x y

-- Any fuel that is not below the first number gives the same.
xor_digits_fuel : (x y f g : ℕ) → x ≤ f → x ≤ g → xor_digits f x y ≡ xor_digits g x y
xor_digits_fuel zero y zero zero h k = refl
xor_digits_fuel zero y (suc f) zero h k = refl
xor_digits_fuel zero y zero (suc g) h k = refl
xor_digits_fuel zero y (suc f) (suc g) h k = refl
xor_digits_fuel (suc x) y zero g h k = absurd (omega arith)
xor_digits_fuel (suc x) y (suc f) zero h k = absurd (omega arith)
xor_digits_fuel (suc x) y (suc f) (suc g) h k =
    omega (arith, xor_digits_fuel (suc x / 2) (y / 2) f g (omega arith) (omega arith))

zero-bit_xor : (b : ℕ) → bit_xor 0 b ≡ b
zero-bit_xor b = bit_xor-bitwise 0 b

bit_xor_step : (x y : ℕ) → bit_xor x y ≡ bit_xor (x / 2) (y / 2) * 2 + differ (x % 2) (y % 2)
bit_xor_step zero y = omega (arith, zero-bit_xor (y / 2), zero-bit_xor y)
bit_xor_step (suc x) y =
    let rest = bit_xor-bitwise (suc x / 2) (y / 2) in
    let same = xor_digits_fuel (suc x / 2) (y / 2) x (suc x / 2) (omega arith) (omega arith) in
    omega (arith, rest, same, bit_xor-bitwise (suc x) y)

differ_bits : (x y : ℕ) → x < 2 → y < 2 → (differ x y < 2) × (differ (differ x y) y ≡ x)
differ_bits zero zero p q = omega arith
differ_bits zero (suc zero) p q = omega arith
differ_bits (suc zero) zero p q = omega arith
differ_bits (suc zero) (suc zero) p q = omega arith
differ_bits (suc (suc x)) y p q = absurd (omega arith)
differ_bits _ (suc (suc y)) p q = absurd (omega arith)

bit_xor_twice_fuel : (n a k : ℕ) → a ≤ n → k ≤ n → bit_xor (bit_xor a k) k ≡ a
bit_xor_twice_fuel zero zero zero p q = refl
bit_xor_twice_fuel zero zero (suc k) p q = absurd (omega arith)
bit_xor_twice_fuel zero (suc a) k p q = absurd (omega arith)
bit_xor_twice_fuel (suc n) a k p q =
    let d = differ_bits (a % 2) (k % 2) (omega arith) (omega arith) in
    let y = bit_xor a k in
    let s = bit_xor_step a k in
    let half : y / 2 ≡ bit_xor (a / 2) (k / 2) = omega (arith, s, d.0) in
    let bit : y % 2 ≡ differ (a % 2) (k % 2) = omega (arith, s, d.0) in
    let t : bit_xor y k
        ≡ bit_xor (bit_xor (a / 2) (k / 2)) (k / 2) * 2 + differ (differ (a % 2) (k % 2)) (k % 2) =
      rw (bit_xor_step y k, half, bit) in
    omega (arith, t, bit_xor_twice_fuel n (a / 2) (k / 2) (omega arith) (omega arith), d.1)

-- Exclusive or with one key twice gives the number back.
pub bit_xor_twice : (a k : ℕ) → bit_xor (bit_xor a k) k ≡ a
bit_xor_twice a k = bit_xor_twice_fuel (a + k) a k (omega arith) (omega arith)
