-- ===== src/Rules/Headers.antt =====
-- internal/rules/engine.go: reading headers, and the keys under which they stand. Go does not say in
-- which order it ranges over a map: here it is the order of the list.
use sniffy.Common.{List, [], ◌∷◌, ◌++◌, Option, none, some, map, is_nil, if◌then◌else◌}
use sniffy.Common.Bytes.{Text, codes}
use sniffy.Common.Dict.{lookup}
use sniffy.Common.Trim.{split_at_byte}
use sniffy.Flow.{Headers}
use sniffy.Rules.Values.{Conversions}

-- `strings.Join`.
unfoldable pub join : Text → List Text → Text
join sep [] = []
join sep (s ∷ []) = s
join sep (s ∷ t ∷ ss) = s ++ (sep ++ join sep (t ∷ ss))

-- `p[:1]` in upper case, the rest in lower case.
capitalize : Conversions → Text → Text
capitalize c [] = []
capitalize c (b ∷ s) = c.to_upper (b ∷ []) ++ c.to_lower s

-- `canonicalHeaderKey`.
unfoldable pub canonical_header_key : Conversions → Text → Text
unfolding join capitalize
canonical_header_key c name = join (codes "-") (map (capitalize c) (split_at_byte b'-' name))

-- The fallback: the first header whose name is the same but for the case.
unfoldable pub lookup_fold : Conversions → Text → List (Text × List Text) → Text
unfolding join
lookup_fold c name [] = []
lookup_fold c name ((k, v) ∷ h) =
    if c.equal_fold k name then join (codes ", ") v else lookup_fold c name h

header_or : Conversions → Text → List (Text × List Text) → Option (List Text) → Text
unfolding lookup_fold
header_or c name h none = lookup_fold c name h
header_or c name h (some v) = join (codes ", ") v

-- `headerValue`.
unfoldable pub header_value : Conversions → Headers → Text → Text
unfolding header_or canonical_header_key
header_value c none name = []
header_value c (some h) name =
    if is_nil name then [] else header_or c name h (lookup (canonical_header_key c name) h)
