-- ===== src/Common/Trim.antt =====
-- `strings.TrimSpace` on UTF-8 text, `strings.Split` at one byte, and `strings.TrimPrefix`.
use Prim.Native.Nat.{ℕ, zero, suc}
use mathlib.Core.Path.{◌≡◌, refl}
use mathlib.Core.Logic.{inl, inr, ◌≢◌}
use mathlib.Core.List.{List, [], ◌∷◌, ◌++◌, map, reverse}
use mathlib.Core.Option.{Option, none, some}
use native.Mathlib.Omega.{arith}
use sniffy.Common.Tests.{◌==◌, ==_iff, if◌then◌else◌, Bool-cases}
use sniffy.Common.Lists.{length, All}
use sniffy.Common.Bytes.{Bytes}

-- `strings.CutPrefix`.
unfoldable pub cut_prefix : Bytes → Bytes → Option Bytes
cut_prefix s [] = some s
cut_prefix [] (p ∷ ps) = none
cut_prefix (x ∷ s) (p ∷ ps) = if x == p then cut_prefix s ps else none

-- The encodings of the code points for which `unicode.IsSpace` holds.
unfoldable pub spaces : List Bytes
spaces =
    (9 ∷ [])
    ∷ (10 ∷ [])
    ∷ (11 ∷ [])
    ∷ (12 ∷ [])
    ∷ (13 ∷ [])
    ∷ (32 ∷ [])
    ∷ (0xc2 ∷ 0x85 ∷ [])
    ∷ (0xc2 ∷ 0xa0 ∷ [])
    ∷ (0xe1 ∷ 0x9a ∷ 0x80 ∷ [])
    ∷ (0xe2 ∷ 0x80 ∷ 0x80 ∷ [])
    ∷ (0xe2 ∷ 0x80 ∷ 0x81 ∷ [])
    ∷ (0xe2 ∷ 0x80 ∷ 0x82 ∷ [])
    ∷ (0xe2 ∷ 0x80 ∷ 0x83 ∷ [])
    ∷ (0xe2 ∷ 0x80 ∷ 0x84 ∷ [])
    ∷ (0xe2 ∷ 0x80 ∷ 0x85 ∷ [])
    ∷ (0xe2 ∷ 0x80 ∷ 0x86 ∷ [])
    ∷ (0xe2 ∷ 0x80 ∷ 0x87 ∷ [])
    ∷ (0xe2 ∷ 0x80 ∷ 0x88 ∷ [])
    ∷ (0xe2 ∷ 0x80 ∷ 0x89 ∷ [])
    ∷ (0xe2 ∷ 0x80 ∷ 0x8a ∷ [])
    ∷ (0xe2 ∷ 0x80 ∷ 0xa8 ∷ [])
    ∷ (0xe2 ∷ 0x80 ∷ 0xa9 ∷ [])
    ∷ (0xe2 ∷ 0x80 ∷ 0xaf ∷ [])
    ∷ (0xe2 ∷ 0x81 ∷ 0x9f ∷ [])
    ∷ (0xe3 ∷ 0x80 ∷ 0x80 ∷ [])
    ∷ []

strip_any : List Bytes → Bytes → Option Bytes
strip_any [] s = none
strip_any (p ∷ ps) s = elim (cut_prefix s p) [ some r ↦ some r | none ↦ strip_any ps s ]

-- A round takes at least one byte, so the length of the text is enough fuel.
trim_while : ℕ → List Bytes → Bytes → Bytes
trim_while zero ps s = s
trim_while (suc f) ps s = elim (strip_any ps s) [ some r ↦ trim_while f ps r | none ↦ s ]

unfoldable pub trim_left : Bytes → Bytes
unfolding trim_while strip_any cut_prefix spaces
trim_left s = trim_while (length s) spaces s

unfoldable pub trim_space : Bytes → Bytes
unfolding trim_while strip_any cut_prefix spaces trim_left
trim_space s =
    let t = trim_left s in reverse (trim_while (length t) (map reverse spaces) (reverse t))

push_byte : ℕ → List Bytes → List Bytes
push_byte c [] = (c ∷ []) ∷ []
push_byte c (w ∷ ws) = (c ∷ w) ∷ ws

-- `strings.Split(s, sep)` for a separator of one byte: the words between the separators.
unfoldable pub split_at_byte : ℕ → Bytes → List Bytes
unfolding push_byte
split_at_byte b [] = [] ∷ []
split_at_byte b (c ∷ s) = if c == b then [] ∷ split_at_byte b s else push_byte c (split_at_byte b s)

-- The first word, and the others.
pub split_at_byte-cons :
    (b : ℕ) (s : Bytes) → (w : Bytes) × (ws : List Bytes) × (split_at_byte b s ≡ w ∷ ws)
unfolding split_at_byte
split_at_byte-cons b [] = ([], [], refl)
split_at_byte-cons b (c ∷ s) = elim (Bool-cases (c == b)) [
  | inl e ↦ ([], split_at_byte b s, rw e)
  | inr e ↦ let (w, ws, r) = split_at_byte-cons b s in (c ∷ w, ws, ground (arith, r))
]

-- A line without the separator, and then the separator.
pub split_at_byte-line :
    (b : ℕ) (line rest : Bytes)
    → All (λ c. c ≢ b) line
    → split_at_byte b (line ++ b ∷ rest) ≡ line ∷ split_at_byte b rest
unfolding split_at_byte push_byte
split_at_byte-line b [] rest a = ground (arith, ==_iff b b)
split_at_byte-line b (c ∷ line) rest a =
    ground (arith, ==_iff c b, a.0, split_at_byte-line b line rest a.1)
