-- ===== src/Access/Scope.antt =====
-- capture/processors/http/scope.go: which hosts are decrypted. `strings.ToLower` is the argument
-- `lower`. The atomic pointer is `none` before the first `SetDecryptScope`.
use sniffy.Common.{Bool, true, false, not, ◌||◌, List, [], ◌∷◌, Option, none, some, if◌then◌else◌}
use sniffy.Common.Bytes.{Text, codes, text_eq}
use sniffy.Common.Trim.{trim_space, cut_prefix}
use sniffy.Common.Utf8.{valid_utf8}
use sniffy.Common.Wildcard.{Piece, literal, dot_star, glob_to_regex, match_string}
use sniffy.Access.HostPort.{split_host_port}

-- A compiled pattern: `^…$`, or `^(.*\.)?…$`.
pub data HostPattern : Type 0 where
  exact below : List Piece → HostPattern

pub record DecryptScope : Type 0 where
  pub enabled : Bool
  pub mode : Text
  pub allow : List HostPattern
  pub deny : List HostPattern

unfoldable pub match_host : HostPattern → Text → Bool
unfolding match_string
match_host (exact ps) host = match_string ps host
match_host (below ps) host = match_string ps host || match_string (dot_star ∷ literal 46 ∷ ps) host

unfoldable pub match_any_host : List HostPattern → Text → Bool
unfolding match_host
match_any_host [] host = false
match_any_host (re ∷ res) host = if match_host re host then true else match_any_host res host

unfoldable pub allows : DecryptScope → Text → Bool
unfolding match_any_host
allows s host =
    if not s.enabled
    then false
    else if text_eq s.mode (codes "allow")
    then match_any_host s.allow host
    else if text_eq s.mode (codes "deny")
    then not (match_any_host s.deny host)
    else true

-- The pattern behind `*.`, or the whole pattern.
unfoldable pub pattern_of : Text → Option Text → HostPattern
unfolding glob_to_regex
pattern_of p none = exact (glob_to_regex p)
pattern_of p (some rest) = below (glob_to_regex rest)

-- `compileHostPattern` of the trimmed pattern in lower case; the quoted text compiles exactly where the
-- pattern is UTF-8.
unfoldable pub compile_lowered : Text → Option HostPattern
unfolding pattern_of cut_prefix valid_utf8
compile_lowered [] = none
compile_lowered (c ∷ p) =
    if valid_utf8 (c ∷ p) then some (pattern_of (c ∷ p) (cut_prefix (c ∷ p) (codes "*."))) else none

unfoldable pub compile_host_pattern : (Text → Text) → Text → Option HostPattern
unfolding compile_lowered trim_space
compile_host_pattern lower p = compile_lowered (lower (trim_space p))

unfoldable pub with_pattern : Option HostPattern → List HostPattern → List HostPattern
with_pattern none res = res
with_pattern (some re) res = re ∷ res

unfoldable pub compile_host_patterns : (Text → Text) → List Text → List HostPattern
unfolding compile_host_pattern with_pattern
compile_host_patterns lower [] = []
compile_host_patterns lower (p ∷ pats) =
    with_pattern (compile_host_pattern lower p) (compile_host_patterns lower pats)

-- `SetDecryptScope`: what is stored.
unfoldable pub set_decrypt_scope :
    (Text → Text) → Bool → Text → List Text → List Text → Option DecryptScope
unfolding compile_host_patterns
set_decrypt_scope lower enabled mode allow deny = some (record {
  enabled = enabled;
  mode = mode;
  allow = compile_host_patterns lower allow;
  deny = compile_host_patterns lower deny;
})

unfoldable pub host_only : (Text → Text) → Text → Text
unfolding split_host_port
host_only lower hostport = elim (split_host_port hostport) [
  | none ↦ lower hostport
  | some h ↦ lower h
]

unfoldable pub should_decrypt : (Text → Text) → Option DecryptScope → Text → Bool
unfolding allows host_only
should_decrypt lower none hostport = true
should_decrypt lower (some sc) hostport = allows sc (host_only lower hostport)
