-- ===== src/Access/ProxyAuth.antt =====
-- capture/processors/http/proxy_auth.go: who may use the proxy, and that the credentials go no
-- further. `sha256.Sum256` is the argument `digest`; `subtle.ConstantTimeCompare` compares digests of
-- one length. The names in `EqualFold` have no letter that folds beyond ASCII.
use sniffy.Common.{
  ℕ, ◌+◌, ◌-◌, ◌*◌, ◌/◌, ◌%◌, Bool, true, false, not, ◌||◌, ◌&&◌, List, [], ◌∷◌, ◌++◌, Option, none,
  some, is_nil, take, drop, length, ltb, leb, ◌==◌, select, if◌then◌else◌,
}
use sniffy.Common.Bytes.{Text, Bytes, codes, text_eq}
use sniffy.Common.Trim.{trim_space}
use sniffy.Common.Dict.{lookup, remove}

pub record ProxyAuthConfig : Type 0 where
  pub enabled : Bool
  pub username : Text
  pub password : Text

abbrev pub proxy_authorization_header : Text
proxy_authorization_header = codes "Proxy-Authorization"

-- ASCII letters in lower case.
unfoldable pub lower_byte : ℕ → ℕ
lower_byte c = if leb 65 c && leb c 90 then c + 32 else c

unfoldable pub equal_fold : Text → Text → Bool
unfolding lower_byte
equal_fold [] [] = true
equal_fold [] (y ∷ ys) = false
equal_fold (x ∷ xs) [] = false
equal_fold (x ∷ xs) (y ∷ ys) = (lower_byte x == lower_byte y) && equal_fold xs ys

-- The value of a character of the standard alphabet of base64.
unfoldable pub sextet : ℕ → Option ℕ
sextet c =
    if leb 65 c && leb c 90
    then some (c - 65)
    else if leb 97 c && leb c 122
    then some (c - 71)
    else if leb 48 c && leb c 57
    then some (c + 4)
    else if c == 43
    then some 62
    else if c == 47
    then some 63
    else none

abbrev padding : ℕ
padding = 61

-- The bytes of a group of two, three or four characters.
unfoldable pub two_sextets : Option ℕ → Option ℕ → Option Bytes
two_sextets none b = none
two_sextets (some a) none = none
two_sextets (some a) (some b) = some ((a * 4 + b / 16) ∷ [])

unfoldable pub three_sextets : Option ℕ → Option ℕ → Option ℕ → Option Bytes
three_sextets none b c = none
three_sextets (some a) none c = none
three_sextets (some a) (some b) none = none
three_sextets (some a) (some b) (some c) = some ((a * 4 + b / 16) ∷ (b % 16 * 16 + c / 4) ∷ [])

unfoldable pub four_sextets : Option ℕ → Option ℕ → Option ℕ → Option ℕ → Option Bytes
four_sextets (some a) (some b) (some c) (some d) =
    some ((a * 4 + b / 16) ∷ (b % 16 * 16 + c / 4) ∷ (c % 4 * 64 + d) ∷ [])
four_sextets none b c d = none
four_sextets (some a) none c d = none
four_sextets (some a) (some b) none d = none
four_sextets (some a) (some b) (some c) none = none

unfoldable pub both : Option Bytes → Option Bytes → Option Bytes
both none t = none
both (some s) none = none
both (some s) (some t) = some (s ++ t)

-- Groups of four; padding only in the last.
unfoldable pub decode_groups : Bytes → Option Bytes
unfolding sextet two_sextets three_sextets four_sextets both
decode_groups [] = some []
decode_groups (a ∷ []) = none
decode_groups (a ∷ b ∷ []) = none
decode_groups (a ∷ b ∷ c ∷ []) = none
decode_groups (a ∷ b ∷ c ∷ d ∷ s) =
    let rest = decode_groups s in
    if not (d == padding)
    then both (four_sextets (sextet a) (sextet b) (sextet c) (sextet d)) rest
    else if not (is_nil s)
    then none
    else if c == padding
    then two_sextets (sextet a) (sextet b)
    else three_sextets (sextet a) (sextet b) (sextet c)

-- `base64.StdEncoding.DecodeString`, which skips line breaks.
unfoldable pub decode_string : Text → Option Bytes
unfolding decode_groups
decode_string s = decode_groups (select (λ c. not (c == 10 || c == 13)) s)

-- `strings.SplitN(s, ":", 2)` where it gives two parts.
unfoldable pub split_at_colon : Bytes → Option (Text × Text)
split_at_colon [] = none
split_at_colon (c ∷ s) =
    let rest = split_at_colon s in
    if c == 58 then some ([], s) else elim rest [ none ↦ none | some (u, p) ↦ some (c ∷ u, p) ]

unfoldable pub constant_time_equal_string : (Text → Bytes) → Text → Text → Bool
constant_time_equal_string digest got want = text_eq (digest got) (digest want)

unfoldable pub check_parts : (Text → Bytes) → ProxyAuthConfig → Option (Text × Text) → Bool
unfolding constant_time_equal_string
check_parts digest c none = false
check_parts digest c (some (user, pass)) =
    constant_time_equal_string digest user c.username
    && constant_time_equal_string digest pass c.password

unfoldable pub check_decoded : (Text → Bytes) → ProxyAuthConfig → Option Bytes → Bool
unfolding split_at_colon check_parts
check_decoded digest c none = false
check_decoded digest c (some decoded) = check_parts digest c (split_at_colon decoded)

-- The trimmed value of the header.
unfoldable pub check_raw : (Text → Bytes) → ProxyAuthConfig → Text → Bool
unfolding equal_fold decode_string trim_space check_decoded
check_raw digest c raw =
    if ltb (length raw) 6 || not (equal_fold (take 6 raw) (codes "Basic "))
    then false
    else check_decoded digest c (decode_string (trim_space (drop 6 raw)))

unfoldable pub first_value : Option (List Text) → Text
first_value none = []
first_value (some []) = []
first_value (some (v ∷ vs)) = v

-- `checkProxyAuthorization` of the request's headers; a nil pointer is `none`.
unfoldable pub check_proxy_authorization :
    (Text → Bytes) → Option ProxyAuthConfig → List (Text × List Text) → Bool
unfolding check_raw first_value trim_space
check_proxy_authorization digest none header = true
check_proxy_authorization digest (some c) header =
    if not c.enabled
    then true
    else if is_nil c.username || is_nil c.password
    then false
    else check_raw digest c (trim_space (first_value (lookup proxy_authorization_header header)))

-- Whether some raw header has the name.
unfoldable pub has_name : Text → List (Text × Text) → Bool
unfolding equal_fold
has_name name [] = false
has_name name (kv ∷ raw) = if equal_fold kv.0 name then true else has_name name raw

-- `stripProxyAuthorization`: the headers and the raw headers that it leaves.
unfoldable pub strip_proxy_authorization :
    List (Text × List Text)
    → Option (List (Text × Text))
    → List (Text × List Text) × Option (List (Text × Text))
unfolding has_name equal_fold
strip_proxy_authorization header none = (remove proxy_authorization_header header, none)
strip_proxy_authorization header (some raw) = (
  remove proxy_authorization_header header,
  some (
      if not (has_name proxy_authorization_header raw)
      then raw
      else select (λ kv. not (equal_fold kv.0 proxy_authorization_header)) raw),
)
