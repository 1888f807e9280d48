-- ===== src/Common/Utf8.antt =====
-- `utf8.ValidString`: no overlong forms, no surrogates, nothing above U+10FFFF.
use Prim.Native.Nat.{ℕ, zero, suc}
use mathlib.Core.Bool.{Bool, false, ◌&&◌}
use mathlib.Core.List.{[], ◌∷◌}
use mathlib.Core.Option.{Option, none, some}
use sniffy.Common.Tests.{leb, ◌==◌, if◌then◌else◌}
use sniffy.Common.Bytes.{Bytes}

-- What may follow inside a character: so many bytes, the first of them in a range.
pub record Rest : Type 0 where
  pub bytes : ℕ
  pub low : ℕ
  pub high : ℕ

abbrev rest_of : ℕ → ℕ → ℕ → Rest
rest_of bytes low high = record { bytes = bytes; low = low; high = high }

abbrev within : ℕ → ℕ → ℕ → Bool
within low high b = leb low b && leb b high

-- What a lead byte asks for.
unfoldable pub lead : ℕ → Option Rest
lead b =
    if leb b 127
    then some (rest_of 0 128 191)
    else if within 194 223 b
    then some (rest_of 1 128 191)
    else if b == 224
    then some (rest_of 2 160 191)
    else if b == 237
    then some (rest_of 2 128 159)
    else if within 225 239 b
    then some (rest_of 2 128 191)
    else if b == 240
    then some (rest_of 3 144 191)
    else if within 241 243 b
    then some (rest_of 3 128 191)
    else if b == 244
    then some (rest_of 3 128 143)
    else none

-- One byte, at the start of a character or inside it.
unfoldable pub next_byte : Rest → ℕ → Option Rest
unfolding lead
next_byte r b = elim r.bytes [
  | zero ↦ lead b
  | suc n ↦ if within r.low r.high b then some (rest_of n 128 191) else none
]

unfoldable pub valid_from : Option Rest → Bytes → Bool
unfolding next_byte
valid_from none s = false
valid_from (some r) [] = r.bytes == 0
valid_from (some r) (b ∷ s) = valid_from (next_byte r b) s

unfoldable pub valid_utf8 : Bytes → Bool
unfolding valid_from
valid_utf8 s = valid_from (some (rest_of 0 128 191)) s
