-- ===== src/Access/HostPort.antt =====
-- `net.SplitHostPort` as capture/processors/http/scope.go uses it: the host, or nothing for an error.
use sniffy.Common.{
  ℕ, suc, ◌-◌, Bool, true, false, ◌||◌, not, [], ◌∷◌, Option, none, some, take, drop, ◌==◌,
  if◌then◌else◌,
}
use sniffy.Common.Bytes.{Text}

abbrev colon : ℕ
colon = 58

abbrev bracket_open : ℕ
bracket_open = 91

abbrev bracket_close : ℕ
bracket_close = 93

-- `strings.IndexByte`.
unfoldable pub index_byte : ℕ → Text → Option ℕ
index_byte b [] = none
index_byte b (c ∷ s) =
    if c == b then some 0 else elim (index_byte b s) [ none ↦ none | some i ↦ some (suc i) ]

-- `strings.LastIndexByte`.
unfoldable pub last_index_byte : ℕ → Text → Option ℕ
last_index_byte b [] = none
last_index_byte b (c ∷ s) = elim (last_index_byte b s) [
  | some i ↦ some (suc i)
  | none ↦ if c == b then some 0 else none
]

unfoldable pub has_byte : ℕ → Text → Bool
unfolding index_byte
has_byte b s = elim (index_byte b s) [ none ↦ false | some i ↦ true ]

-- The host before the last colon, which stands at `i`.
unfoldable pub plain_host : Text → ℕ → Option Text
unfolding has_byte
plain_host s i =
    if has_byte colon (take i s) || (has_byte bracket_open s || has_byte bracket_close s)
    then none
    else some (take i s)

-- The host in brackets, the second of which stands at `close`.
unfoldable pub bracket_host : Text → ℕ → Option ℕ → Option Text
unfolding has_byte
bracket_host s i none = none
bracket_host s i (some close) =
    if not (suc close == i)
      || (has_byte bracket_open (drop 1 s) || has_byte bracket_close (drop (suc close) s))
    then none
    else some (take (close - 1) (drop 1 s))

unfoldable pub split_host_port : Text → Option Text
unfolding plain_host bracket_host index_byte last_index_byte
split_host_port [] = none
split_host_port (c ∷ s) = elim (last_index_byte colon (c ∷ s)) [
  | none ↦ none
  | some i ↦
      if c == bracket_open
      then bracket_host (c ∷ s) i (index_byte bracket_close (c ∷ s))
      else plain_host (c ∷ s) i
]
