-- ===== src/Access/Lines.antt =====
-- capture/processors/http/readorder.go: the header lines of a request are read as they were written.
use sniffy.Common.{
  ◌≡◌, ◌≢◌, refl, sym, ap, false, List, [], ◌∷◌, ◌++◌, append_assoc, append-nil, some, arith,
  is_nil, All, All-append, ==_iff,
}
use sniffy.Common.Bytes.{Text, Bytes}
use sniffy.Common.Trim.{split_at_byte, split_at_byte-line}
use sniffy.Access.HeaderLines.{
  trim_return, is_blank, trim_blanks, name_and_value, with_header, header_line, header_lines,
  parse_request_header_lines,
}

-- A line of a header and its end.
abbrev pub line_of : Text × Text → Text
line_of kv = kv.0 ++ 58 ∷ 32 ∷ kv.1

abbrev pub printed : List (Text × Text) → Bytes
printed [] = []
printed (kv ∷ hs) = (line_of kv ++ 13 ∷ []) ++ 10 ∷ printed hs

-- A text that is empty or begins with something visible.
abbrev pub StartsVisibly : Text → Type 0
StartsVisibly [] = Unit
StartsVisibly (b ∷ s) = is_blank b ≡ false

-- A header that fits on its line: no line feed, a name that is there, has no colon and begins
-- visibly, and a value that does too.
pub record IsLine (kv : Text × Text) : Type 0 where
  pub one_line : All (λ c. c ≢ 10) (line_of kv)
  pub named : is_nil kv.0 ≡ false
  pub no_colon : All (λ c. c ≢ 58) kv.0
  pub name_visible : StartsVisibly kv.0
  pub value_visible : StartsVisibly kv.1

trim_return-end : (s : Text) → trim_return (s ++ 13 ∷ []) ≡ s
unfolding trim_return
trim_return-end [] = refl
trim_return-end (b ∷ []) = refl
trim_return-end (b ∷ c ∷ s) = ap (◌∷◌ b) (trim_return-end (c ∷ s))

trim_blanks_visible : (v : Text) → StartsVisibly v → trim_blanks v ≡ v
unfolding trim_blanks
trim_blanks_visible [] h = refl
trim_blanks_visible (b ∷ v) h = rw h

name_and_value-line :
    (k v : Text)
    → All (λ c. c ≢ 58) k
    → StartsVisibly v
    → name_and_value (k ++ 58 ∷ 32 ∷ v) ≡ some (k, v)
unfolding name_and_value
name_and_value-line [] v a h =
    unfold trim_blanks is_blank in ground (arith, trim_blanks_visible v h)
name_and_value-line (c ∷ k) v a h = ground (arith, ==_iff c 58, a.0, name_and_value-line k v a.1 h)

header_line-line :
    (kv : Text × Text) (out : List (Text × Text))
    → IsLine kv
    → header_line (line_of kv) out ≡ out ++ kv ∷ []
unfolding header_line with_header
header_line-line ([], v) out h = absurd (cc h.named)
header_line-line (b ∷ k, v) out h =
    rw (h.name_visible, name_and_value-line (b ∷ k) v h.no_colon h.value_visible)

line_of_not_nil : (kv : Text × Text) → is_nil (line_of kv) ≡ false
line_of_not_nil ([], v) = refl
line_of_not_nil (b ∷ k, v) = refl

header_lines-printed :
    (hs out : List (Text × Text))
    → All IsLine hs
    → header_lines false (split_at_byte 10 (printed hs)) out ≡ out ++ hs
unfolding header_lines
header_lines-printed [] out a = unfold split_at_byte trim_return in sym (append-nil out)
header_lines-printed (kv ∷ hs) out a =
    let line = line_of kv ++ 13 ∷ [] in
    let fits = All-append (λ c. c ≢ 10) (line_of kv) (13 ∷ []) a.0.one_line (omega arith, tt) in
    rw (
      split_at_byte-line 10 line (printed hs) fits,
      header_lines,
      trim_return-end (line_of kv),
      line_of_not_nil kv,
      header_line-line kv out a.0,
      header_lines-printed hs (out ++ kv ∷ []) a.1,
      append_assoc out (kv ∷ []) hs,
    )

-- A request line and headers that fit on their lines are read as the names, spellings and values of
-- the headers, in their order.
pub parse-printed :
    (request : Text) (hs : List (Text × Text))
    → is_nil request ≡ false
    → All (λ c. c ≢ 10) request
    → All IsLine hs
    → parse_request_header_lines ((request ++ 13 ∷ []) ++ 10 ∷ printed hs) ≡ hs
unfolding parse_request_header_lines header_lines
parse-printed request hs n r a =
    let fits = All-append (λ c. c ≢ 10) request (13 ∷ []) r (omega arith, tt) in
    rw (
      split_at_byte-line 10 (request ++ 13 ∷ []) (printed hs) fits,
      header_lines,
      trim_return-end request,
      n,
      header_lines-printed hs [] a,
    )
