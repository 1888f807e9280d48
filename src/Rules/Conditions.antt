-- ===== src/Rules/Conditions.antt =====
-- internal/rules/engine.go: when a rule matches a flow. Packages net/url and regexp are fields of
-- `Matchers`: parsing a URL and writing it out, and compiling a pattern and using it.
use sniffy.Common.{
  ℕ, Bool, true, false, not, ◌&&◌, ◌||◌, List, [], ◌∷◌, ◌++◌, Option, none, some, is_nil,
  if◌then◌else◌,
}
use sniffy.Common.Bytes.{Text, text_eq, codes, contains, has_prefix}
use sniffy.Common.Trim.{trim_space, split_at_byte}
use mathlib.Core.List.{reverse}
use sniffy.Flow.{Request, Response}
use sniffy.Rules.Values.{Conversions, stringify}
use sniffy.Rules.Types.{Condition, Rule}
use sniffy.Rules.Headers.{header_value}

-- The parts of a `url.URL` that the engine reads.
pub record ParsedUrl : Type 0 where
  pub scheme : Text
  pub host : Text
  pub path : Text
  pub raw_query : Text
  -- All else: user, fragment, and the escaped forms.
  pub others : Text

pub record Matchers : Type 0 where
  pub conv : Conversions
  -- `url.Parse`; an error is `none`.
  pub parse_url : Text → Option ParsedUrl
  -- `URL.String`.
  pub url_string : ParsedUrl → Text
  -- `regexp.Compile` and `ReplaceAllString` of a text by a template.
  pub replacer : Text → Option (Text → Text → Text)
  -- `regexp.Compile` and `MatchString`.
  pub compile : Text → Option (Text → Bool)

query_of : Option ParsedUrl → Text
query_of none = []
query_of (some u) = u.raw_query

scheme_of : Option ParsedUrl → Text
scheme_of none = []
scheme_of (some u) = u.scheme

content_type : Conversions → Request → Option Response → Text
content_type c q none = header_value c q.header (codes "Content-Type")
content_type c q (some r) = header_value c r.header (codes "Content-Type")

status_text : Conversions → Option Response → Option Text
status_text c none = none
status_text c (some r) = some (c.format_int r.status)

response_header : Conversions → Text → Option Response → Option Text
response_header c name none = none
response_header c name (some r) = some (header_value c r.header name)

-- `fieldValue` for a flow with a request; a field that is not there is `none`.
unfoldable pub field_value : Matchers → Condition → Request → Option Response → Option Text
unfolding query_of scheme_of content_type status_text response_header
field_value m c q r =
    let is = λ (name : Text). text_eq c.subject name in
    if is (codes "url")
    then some q.url
    else if is (codes "url_host")
    then some q.host
    else if is (codes "url_path")
    then some q.path
    else if is (codes "url_query")
    then some (query_of (m.parse_url q.url))
    else if is (codes "method")
    then some q.method
    else if is (codes "scheme")
    then some (scheme_of (m.parse_url q.url))
    else if is (codes "request_header")
    then some (header_value m.conv q.header c.header_name)
    else if is (codes "user_agent")
    then some (header_value m.conv q.header (codes "User-Agent"))
    else if is (codes "content_type")
    then some (content_type m.conv q r)
    else if is (codes "response_status")
    then status_text m.conv r
    else if is (codes "response_header")
    then response_header m.conv c.header_name r
    else none

-- `strings.HasSuffix`.
has_suffix : Text → Text → Bool
has_suffix s p = has_prefix (reverse s) (reverse p)

matched : Option (Text → Bool) → Text → Bool → Bool
matched none field negated = false
matched (some matches) field negated = if negated then not (matches field) else matches field

compare_regex : Matchers → Text → Text → Bool → Bool → Bool
unfolding matched
compare_regex m field val case_sensitive negated =
    matched (m.compile (if not case_sensitive then codes "(?i)" ++ val else val)) field negated

compare_texts : Text → Text → Text → Bool
unfolding has_suffix
compare_texts op field val =
    if text_eq op (codes "equals")
    then text_eq field val
    else if text_eq op (codes "not_equals")
    then not (text_eq field val)
    else if text_eq op (codes "contains")
    then contains field val
    else if text_eq op (codes "not_contains")
    then not (contains field val)
    else if text_eq op (codes "starts_with")
    then has_prefix field val
    else if text_eq op (codes "ends_with")
    then has_suffix field val
    else if text_eq op (codes "is_empty")
    then is_nil field
    else if text_eq op (codes "not_empty")
    then not (is_nil field)
    else false

lowered : Conversions → Bool → Text → Text
lowered c case_sensitive s = if not case_sensitive then c.to_lower s else s

unfoldable pub compare : Matchers → Text → Text → Text → Bool → Bool
unfolding compare_regex compare_texts lowered
compare m op field val case_sensitive =
    if text_eq op (codes "regex")
    then compare_regex m field val case_sensitive false
    else if text_eq op (codes "not_regex")
    then compare_regex m field val case_sensitive true
    else compare_texts op (lowered m.conv case_sensitive field) (lowered m.conv case_sensitive val)

ordered : (ℕ → ℕ → Bool) → Option ℕ → Option ℕ → Bool
ordered r none y = false
ordered r (some x) none = false
ordered r (some x) (some y) = r x y

between : Conversions → Option ℕ → Option ℕ → Option ℕ → Bool
between c none lo hi = false
between c (some x) none hi = false
between c (some x) (some lo) none = false
between c (some x) (some lo) (some hi) = c.less_or_equal lo x && c.less_or_equal x hi

unfoldable pub in_list : Text → List Text → Bool
in_list field [] = false
in_list field (w ∷ ws) = text_eq (trim_space w) field || in_list field ws

-- `matchOp`.
unfoldable pub match_op : Matchers → Condition → Text → Bool
unfolding stringify ordered between in_list compare
match_op m c field =
    let val = stringify m.conv c.value in
    let val2 = stringify m.conv c.value2 in
    let float = λ (s : Text). m.conv.parse_float (trim_space s) in
    let is = λ (name : Text). text_eq c.operator name in
    if is (codes "exists")
    then not (is_nil field)
    else if is (codes "not_exists")
    then is_nil field
    else if is (codes "greater_than")
    then ordered (λ x y. m.conv.less y x) (float field) (float val)
    else if is (codes "less_than")
    then ordered m.conv.less (float field) (float val)
    else if is (codes "between")
    then between m.conv (float field) (float val) (float val2)
    else if is (codes "in_list")
    then in_list field (split_at_byte b',' val)
    else if is (codes "not_in_list")
    then not (in_list field (split_at_byte b',' val))
    else compare m c.operator field val c.case_sensitive

unfoldable pub answer : Matchers → Condition → Option Text → Bool
answer m c none = false
answer m c (some field) = if c.negate then not (match_op m c field) else match_op m c field

-- `evalCondition`.
unfoldable pub eval_condition : Matchers → Condition → Request → Option Response → Bool
eval_condition m c q r = answer m c (field_value m c q r)

-- The loop of `matches`, with its early returns.
unfoldable pub conditions_loop : Matchers → Bool → List Condition → Request → Option Response → Bool
unfolding eval_condition
conditions_loop m any [] q r = not any
conditions_loop m any (c ∷ cs) q r =
    let ok = eval_condition m c q r in
    let rest = conditions_loop m any cs q r in
    if any then (if ok then true else rest) else if not ok then false else rest

unfoldable pub matches : Matchers → Rule → Request → Option Response → Bool
unfolding conditions_loop
matches m r q resp =
    if is_nil r.conditions
    then true
    else conditions_loop m (m.conv.equal_fold r.logic_operator (codes "OR")) r.conditions q resp
