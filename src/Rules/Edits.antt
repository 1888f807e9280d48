-- ===== src/Rules/Edits.antt =====
-- internal/rules/engine.go: the edits that actions make. An edit that changes nothing is `none`
-- where the source returns false.
use sniffy.Common.{
  ℕ, zero, suc, ◌||◌, [], ◌∷◌, ◌++◌, Option, none, some, is_nil, length, if◌then◌else◌,
}
use sniffy.Common.Int.{ℤ, pos, negsuc, ltb_ℤ}
use sniffy.Common.Bytes.{Text, Bytes, text_eq, codes, contains}
use sniffy.Common.Trim.{trim_space, cut_prefix}
use sniffy.Flow.{Request}
use sniffy.Rules.Conditions.{Matchers, ParsedUrl}

or_text : Text → Text → Text
or_text [] old = old
or_text (c ∷ s) old = c ∷ s

-- The four tests of `applyRedirect`: what the target leaves out is kept.
unfoldable pub redirected : ParsedUrl → ParsedUrl → ParsedUrl
unfolding or_text
redirected u t = record u {
  scheme = or_text t.scheme u.scheme;
  host = or_text t.host u.host;
  path = if is_nil t.path || text_eq t.path (codes "/") then u.path else t.path;
  raw_query = or_text t.raw_query u.raw_query;
}

-- A target with no scheme takes that of the request.
with_scheme : ParsedUrl → Text → Text
unfolding or_text
with_scheme u target =
    if contains target (codes "://")
    then target
    else or_text u.scheme (codes "http") ++ (codes "://" ++ target)

move_to : Matchers → Request → ParsedUrl → Option ParsedUrl → Option Request
unfolding redirected
move_to m q u none = none
move_to m q u (some t) =
    let v = redirected u t in some (record q { url = m.url_string v; host = v.host; path = v.path })

redirect_from : Matchers → Request → Text → Option ParsedUrl → Option Request
unfolding move_to with_scheme
redirect_from m q target none = none
redirect_from m q target (some u) = move_to m q u (m.parse_url (with_scheme u target))

unfoldable pub apply_redirect : Matchers → Request → Text → Option Request
unfolding redirect_from
apply_redirect m q target =
    if is_nil (trim_space target)
    then none
    else redirect_from m q (trim_space target) (m.parse_url q.url)

-- The URL, and the host and path if it parses.
with_url : Request → Text → Option ParsedUrl → Request
with_url q url none = record q { url = url }
with_url q url (some u) = record q { url = url; host = u.host; path = u.path }

rewrite_url : Matchers → Request → Text → Option (Text → Text → Text) → Option Request
unfolding with_url
rewrite_url m q replacement none = none
rewrite_url m q replacement (some replace) =
    let url = replace q.url replacement in
    if text_eq url q.url then none else some (with_url q url (m.parse_url url))

unfoldable pub apply_modify_url : Matchers → Request → Text → Text → Option Request
unfolding rewrite_url
apply_modify_url m q pattern replacement =
    if is_nil pattern then none else rewrite_url m q replacement (m.replacer pattern)

-- `strings.ReplaceAll` for a pattern that is not empty; a round takes at least one byte.
unfoldable pub replace_all : ℕ → Bytes → Bytes → Bytes → Bytes
replace_all zero pattern new s = s
replace_all (suc f) pattern new [] = []
replace_all (suc f) pattern new (c ∷ s) = elim (cut_prefix (c ∷ s) pattern) [
  | some rest ↦ new ++ replace_all f pattern new rest
  | none ↦ c ∷ replace_all f pattern new s
]

-- `applyBodyReplace`.
unfoldable pub apply_body_replace : Bytes → Text → Text → Option Bytes
unfolding replace_all
apply_body_replace body pattern replacement =
    let new = replace_all (length body) pattern replacement body in
    if is_nil pattern then none else if text_eq new body then none else some new

-- `applyDelay`: for how many milliseconds it sleeps.
unfoldable pub apply_delay : ℤ → ℕ
apply_delay (negsuc n) = 0
apply_delay (pos n) = if ltb_ℤ (pos 60000) (pos n) then 60000 else n
