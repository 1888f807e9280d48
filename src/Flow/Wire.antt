-- ===== src/Flow/Wire.antt =====
-- internal/flow/http.go: how a response goes back to the client in the form in which the server sent
-- it. `textproto.CanonicalMIMEHeaderKey` and `http.StatusText` are arguments.
use sniffy.Common.{
  ℕ, zero, suc, ◌+◌, ◌-◌, ◌*◌, ◌/◌, ◌%◌, ◌^◌, Bool, ◌&&◌, ◌||◌, List, [], ◌∷◌, Option, none, some,
  ltb, leb, ◌==◌, if◌then◌else◌,
}
use sniffy.Common.Int.{ℤ, pos, negsuc}
use sniffy.Common.Bytes.{Text, codes, text_eq}

pub record Wire : Type 0 where
  pub canon : Text → Text
  pub status_text : ℤ → Text

-- The loop of `itoa`, from the last digit; the buffer has 20 places.
unfoldable pub digits : ℕ → ℕ → Text → Text
digits zero n s = s
digits (suc f) zero s = s
digits (suc f) (suc n) s = digits f (suc n / 10) ((48 + suc n % 10) ∷ s)

-- The least int64 has no positive counterpart, and the loop is not entered.
unfoldable pub itoa : ℤ → Text
unfolding digits
itoa (pos zero) = codes "0"
itoa (pos (suc n)) = digits 20 (suc n) []
itoa (negsuc n) = 45 ∷ (if suc n == 2 ^ 63 then [] else digits 20 (suc n) [])

-- `bodylessResponse`.
unfoldable pub bodyless_response : ℤ → Text → Bool
bodyless_response (negsuc n) method = text_eq method (codes "HEAD")
bodyless_response (pos n) method =
    text_eq method (codes "HEAD") || ((n == 204) || ((n == 304) || (leb 100 n && ltb n 200)))

-- `rawHeaderValue`, for a name in canonical form.
unfoldable pub raw_header_value : (Text → Text) → List (Text × Text) → Text → Text
raw_header_value canon [] want = []
raw_header_value canon (kv ∷ raw) want =
    if text_eq (canon kv.0) want then kv.1 else raw_header_value canon raw want

-- The text before the first space, if there is one.
unfoldable pub before_space : Text → Option Text
before_space [] = none
before_space (c ∷ s) =
    let rest = before_space s in
    if c == 32 then some [] else elim rest [ none ↦ none | some t ↦ some (c ∷ t) ]

unfoldable pub after_space : Text → Option Text
after_space [] = none
after_space (c ∷ s) = if c == 32 then some s else after_space s

-- `protoOf`: a space in front gives none.
unfoldable pub proto_of : Text → Text
unfolding before_space
proto_of line = elim (before_space line) [ none ↦ [] | some t ↦ t ]

-- The value of digits.
unfoldable pub digits_value : ℕ → Text → Option ℕ
digits_value acc [] = some acc
digits_value acc (c ∷ s) =
    let rest = digits_value (acc * 10 + (c - 48)) s in if leb 48 c && leb c 57 then rest else none

-- The number with its sign, if it is an int64.
unfoldable pub positive : Option ℕ → Option ℤ
positive none = none
positive (some n) = if ltb n (2 ^ 63) then some (pos n) else none

unfoldable pub negated : Option ℕ → Option ℤ
negated none = none
negated (some zero) = some (pos zero)
negated (some (suc n)) = if ltb n (2 ^ 63) then some (negsuc n) else none

-- `strconv.Atoi`: an error is nothing.
unfoldable pub atoi : Text → Option ℤ
unfolding digits_value positive negated
atoi [] = none
atoi (c ∷ []) = positive (digits_value 0 (c ∷ []))
atoi (c ∷ d ∷ s) =
    if c == 45
    then negated (digits_value 0 (d ∷ s))
    else if c == 43
    then positive (digits_value 0 (d ∷ s))
    else positive (digits_value 0 (c ∷ d ∷ s))

-- The second of the parts between spaces; an error gives 0.
unfoldable pub second_part : Option Text → Option Text
unfolding before_space
second_part none = none
second_part (some s) = some (elim (before_space s) [ none ↦ s | some t ↦ t ])

unfoldable pub number_or_zero : Option Text → ℤ
unfolding atoi
number_or_zero none = pos 0
number_or_zero (some s) = elim (atoi s) [ none ↦ pos 0 | some n ↦ n ]

unfoldable pub status_code_of : Text → ℤ
unfolding second_part number_or_zero after_space
status_code_of line = number_or_zero (second_part (after_space line))
