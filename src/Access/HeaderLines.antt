-- ===== src/Access/HeaderLines.antt =====
-- capture/processors/http/readorder.go: the header lines of a request, before net/http reads them.
use sniffy.Common.{
  ℕ, suc, ◌+◌, ◌*◌, Bool, true, false, ◌||◌, List, [], ◌∷◌, ◌++◌, Option, none, some, is_nil,
  length, take, leb, ◌==◌, if◌then◌else◌,
}
use sniffy.Common.Bytes.{Text, Bytes, has_prefix}
use sniffy.Common.Trim.{trim_space, split_at_byte}

-- 64 KiB.
unfoldable pub max_header_peek : ℕ
max_header_peek = 64 * 1024

-- `bytes.Index`.
unfoldable pub index_bytes : Bytes → Bytes → Option ℕ
unfolding has_prefix
index_bytes p [] = if is_nil p then some 0 else none
index_bytes p (b ∷ s) =
    let rest = index_bytes p s in
    if has_prefix (b ∷ s) p then some 0 else elim rest [ none ↦ none | some i ↦ some (suc i) ]

unfoldable pub header_block_end : Bytes → Option ℕ
unfolding index_bytes
header_block_end b = elim (index_bytes (13 ∷ 10 ∷ 13 ∷ 10 ∷ []) b) [
  | some i ↦ some (i + 2)
  | none ↦ elim (index_bytes (10 ∷ 10 ∷ []) b) [ none ↦ none | some i ↦ some (i + 1) ]
]

-- `strings.TrimSuffix(ln, "\r")`.
unfoldable pub trim_return : Text → Text
trim_return [] = []
trim_return (b ∷ []) = if b == 13 then [] else b ∷ []
trim_return (b ∷ c ∷ s) = b ∷ trim_return (c ∷ s)

unfoldable pub is_blank : ℕ → Bool
is_blank b = (b == 32) || (b == 9)

-- `strings.TrimLeft(s, " \t")`.
unfoldable pub trim_blanks : Text → Text
unfolding is_blank
trim_blanks [] = []
trim_blanks (b ∷ s) = if is_blank b then trim_blanks s else b ∷ s

-- A folded line, at the end of the value of the last header.
unfoldable pub folded : Text → List (Text × Text) → List (Text × Text)
folded more [] = []
folded more (kv ∷ []) = (kv.0, kv.1 ++ 32 ∷ more) ∷ []
folded more (kv ∷ next ∷ out) = kv ∷ folded more (next ∷ out)

-- The name before the colon and the value behind it.
unfoldable pub name_and_value : Text → Option (Text × Text)
unfolding trim_blanks
name_and_value [] = none
name_and_value (c ∷ s) =
    let rest = name_and_value s in
    if c == 58
    then some ([], trim_blanks s)
    else elim rest [ none ↦ none | some (k, v) ↦ some (c ∷ k, v) ]

unfoldable pub with_header : Option (Text × Text) → List (Text × Text) → List (Text × Text)
with_header none out = out
with_header (some kv) out = out ++ kv ∷ []

-- One line that is not empty, behind the request line.
unfoldable pub header_line : Text → List (Text × Text) → List (Text × Text)
unfolding is_blank folded trim_space with_header name_and_value
header_line [] out = out
header_line (b ∷ s) out =
    if is_blank b then folded (trim_space (b ∷ s)) out else with_header (name_and_value (b ∷ s)) out

-- The loop of `parseRequestHeaderLines`; the first line that is not empty is the request line.
unfoldable pub header_lines : Bool → List Text → List (Text × Text) → List (Text × Text)
unfolding trim_return header_line
header_lines first [] out = out
header_lines first (raw ∷ lines) out =
    let ln = trim_return raw in
    let skipped = header_lines first lines out in
    let behind_request = header_lines false lines out in
    let onward = header_lines false lines (header_line ln out) in
    if is_nil ln then skipped else if first then behind_request else onward

unfoldable pub parse_request_header_lines : Bytes → List (Text × Text)
unfolding header_lines split_at_byte
parse_request_header_lines head = header_lines true (split_at_byte 10 head) []

-- One look of `peekRequestHeaderOrder` at the buffered bytes: an answer, or more bytes are needed.
unfoldable pub peeked : Bytes → Option (List (Text × Text))
unfolding header_block_end parse_request_header_lines max_header_peek
peeked b = elim (header_block_end b) [
  | some end ↦ some (parse_request_header_lines (take end b))
  | none ↦ if leb max_header_peek (length b) then some [] else none
]

-- `peekRequestHeaderOrder`: what has arrived, and what comes with each further read until an error.
unfoldable pub peek_request_header_order : Bytes → List Bytes → List (Text × Text)
unfolding peeked
peek_request_header_order b [] = elim (if is_nil b then none else peeked b) [
  | none ↦ []
  | some raw ↦ raw
]
peek_request_header_order b (p ∷ reads) =
    let later = peek_request_header_order (b ++ p) reads in
    elim (if is_nil b then none else peeked b) [ none ↦ later | some raw ↦ raw ]
