-- ===== src/Common/Wildcard.antt =====
-- The one form of regular expression that the code builds: literal pieces, quoted, joined by `.*`
-- and anchored at both ends; and the wildcard patterns that it is built from.
use Prim.Native.Nat.{ℕ}
use mathlib.Core.Path.{◌≡◌, refl}
use mathlib.Core.Logic.{◌↔◌, ◌≢◌, ◌⊎◌, inl, inr}
use mathlib.Core.Bool.{Bool, true, false, not, ◌&&◌, ◌||◌}
use mathlib.Core.List.{List, [], ◌∷◌, ◌++◌, map}
use native.Mathlib.Omega.{arith}
use sniffy.Common.Tests.{◌==◌, if◌then◌else◌, Bool-cases, ==_iff}
use sniffy.Common.Lists.{is_nil}
use sniffy.Common.Bytes.{Bytes}
use sniffy.Common.Trim.{split_at_byte, split_at_byte-cons}

abbrev pub asterisk : ℕ
asterisk = 42

abbrev pub newline : ℕ
newline = 10

-- A quoted byte, or `.*`.
pub data Piece : Type 0 where
  literal : ℕ → Piece
  dot_star : Piece

-- `.*` takes any run without a line break before `rest` matches.
star_match : (Bytes → Bool) → Bytes → Bool
star_match rest [] = rest []
star_match rest (c ∷ s) = rest (c ∷ s) || (not (c == newline) && star_match rest s)

literal_match : ℕ → (Bytes → Bool) → Bytes → Bool
literal_match b rest [] = false
literal_match b rest (c ∷ s) = (c == b) && rest s

-- `MatchString` of `^…$`.
unfoldable pub match_string : List Piece → Bytes → Bool
unfolding star_match literal_match
match_string [] s = is_nil s
match_string (literal b ∷ ps) s = literal_match b (match_string ps) s
match_string (dot_star ∷ ps) s = star_match (match_string ps) s

-- `QuoteMeta`.
quote_meta : Bytes → List Piece
quote_meta = map literal

-- `strings.Join(parts, ".*")` of the quoted parts behind the first.
join_rest : List Bytes → List Piece
join_rest [] = []
join_rest (w ∷ ws) = dot_star ∷ (quote_meta w ++ join_rest ws)

join_parts : List Bytes → List Piece
join_parts [] = []
join_parts (w ∷ ws) = quote_meta w ++ join_rest ws

-- The parts of a pattern between its asterisks, quoted, with `.*` between them.
unfoldable pub glob_to_regex : Bytes → List Piece
unfolding quote_meta join_rest join_parts
glob_to_regex p = join_parts (split_at_byte asterisk p)

-- The same, a byte at a time.
pieces : Bytes → List Piece
pieces [] = []
pieces (c ∷ p) = (if c == asterisk then dot_star else literal c) ∷ pieces p

glob_to_regex-pieces : (p : Bytes) → glob_to_regex p ≡ pieces p
unfolding glob_to_regex pieces split_at_byte
glob_to_regex-pieces [] = refl
glob_to_regex-pieces (c ∷ p) =
    let (w, ws, r) = split_at_byte-cons asterisk p in ground (arith, r, glob_to_regex-pieces p)

-- What a wildcard pattern means: an asterisk stands for any run without a line break.
pub data Glob : Bytes → Bytes → Type 0 where
  end : Glob [] []
  byte : {c d : ℕ} {p s : Bytes} → c ≢ asterisk → d ≡ c → Glob p s → Glob (c ∷ p) (d ∷ s)
  skip : {c : ℕ} {p s : Bytes} → c ≡ asterisk → Glob p s → Glob (c ∷ p) s
  take :
      {c d : ℕ} {p s : Bytes} → c ≡ asterisk → d ≢ newline → Glob (c ∷ p) s → Glob (c ∷ p) (d ∷ s)

&&_cases : (a b : Bool) → (a && b) ≡ true → (a ≡ true) × (b ≡ true)
&&_cases a b h = ground arith

||_cases : (a b : Bool) → (a || b) ≡ true → (a ≡ true) ⊎ (b ≡ true)
||_cases a b h = ground arith

star_sound :
    (c : ℕ) (p : Bytes) (rest : Bytes → Bool)
    → c ≡ asterisk
    → ((s : Bytes) → rest s ≡ true → Glob p s)
    → (s : Bytes) → star_match rest s ≡ true
    → Glob (c ∷ p) s
unfolding star_match
star_sound c p rest e f [] h = skip e (f [] h)
star_sound c p rest e f (d ∷ s) h = elim (||_cases (rest (d ∷ s)) _ h) [
  | inl k ↦ skip e (f (d ∷ s) k)
  | inr k ↦
      let k' = &&_cases (not (d == newline)) (star_match rest s) k in
      take e (ground (arith, ==_iff d newline)) (star_sound c p rest e f s k'.1)
]

literal_sound :
    (c : ℕ) (p : Bytes) (rest : Bytes → Bool)
    → c ≢ asterisk
    → ((s : Bytes) → rest s ≡ true → Glob p s)
    → (s : Bytes) → literal_match c rest s ≡ true
    → Glob (c ∷ p) s
unfolding literal_match
literal_sound c p rest n f [] h = cc
literal_sound c p rest n f (d ∷ s) h =
    let k = &&_cases (d == c) (rest s) h in byte n ((==_iff d c).0 k.0) (f s k.1)

match→Glob : (p s : Bytes) → match_string (pieces p) s ≡ true → Glob p s
unfolding match_string pieces
match→Glob [] [] h = end
match→Glob [] (d ∷ s) h = cc
match→Glob (c ∷ p) s h = elim (Bool-cases (c == asterisk)) [
  | inl e ↦
      star_sound c p (match_string (pieces p)) ((==_iff c asterisk).0 e) (match→Glob p) s
        (rw (e, match_string, pieces) at h)
  | inr e ↦
      literal_sound c p (match_string (pieces p)) (ground arith) (match→Glob p) s
        (rw (e, match_string, pieces) at h)
]

star_here : (rest : Bytes → Bool) (s : Bytes) → rest s ≡ true → star_match rest s ≡ true
unfolding star_match
star_here rest [] h = h
star_here rest (d ∷ s) h = ground arith

star_next :
    (rest : Bytes → Bool) (d : ℕ) (s : Bytes)
    → d ≢ newline
    → star_match rest s ≡ true
    → star_match rest (d ∷ s) ≡ true
unfolding star_match
star_next rest d s n h = ground (arith, ==_iff d newline)

Glob→match : {p s : Bytes} → Glob p s → match_string (pieces p) s ≡ true
unfolding match_string pieces
Glob→match end = refl
Glob→match (byte {c} {d} {p} {s} n e g) =
    ground (arith, Glob→match g, ==_iff c asterisk, ==_iff d c)
Glob→match (skip {c} {p} {s} e g) =
    rw ((==_iff c asterisk).1 e, match_string, pieces)
      (star_here (match_string (pieces p)) s (Glob→match g))
Glob→match (take {c} {d} {p} {s} e n g) =
    rw ((==_iff c asterisk).1 e, match_string, pieces)
      (star_next (match_string (pieces p)) d s n
        (rw ((==_iff c asterisk).1 e, match_string, pieces) at (Glob→match g)))

-- The compiled pattern decides what the wildcard pattern means.
pub match_string_iff_Glob : (p s : Bytes) → (match_string (glob_to_regex p) s ≡ true) ↔ Glob p s
match_string_iff_Glob p s = rw glob_to_regex-pieces (match→Glob p s, Glob→match)

-- An asterisk and then a byte that is none, in front of a pattern.
pub glob_to_regex-star :
    (c : ℕ) (p : Bytes)
    → c ≢ asterisk
    → glob_to_regex (asterisk ∷ c ∷ p) ≡ dot_star ∷ literal c ∷ glob_to_regex p
unfolding pieces
glob_to_regex-star c p h =
    rw (glob_to_regex-pieces (asterisk ∷ c ∷ p), glob_to_regex-pieces p)
      (ground (arith, ==_iff c asterisk))
