-- ===== src/Access/Credentials.antt =====
-- capture/processors/http/proxy_auth.go: exactly the right credentials open the proxy, and they do not
-- reach the server.
use sniffy.Common.{
  ◌≡◌, ◌≢◌, ◌↔◌, ◌⊎◌, refl, inl, inr, true, false, not, List, [], ◌∷◌, ◌++◌, Option, none, some,
  arith, is_nil, take, drop, length, length-take, ==_iff, select, All, if_elim, Bool-cases,
  Option-cases,
}
use sniffy.Common.Bytes.{Text, Bytes, codes, text_eq, text_eq_iff}
use sniffy.Common.Trim.{trim_space}
use sniffy.Common.Dict.{lookup, remove}
use sniffy.Flow.Order.{reconcile_ordered_headers}
use sniffy.Flow.Order.Names.{reconcile-Named}
use sniffy.Access.ProxyAuth.{
  ProxyAuthConfig, proxy_authorization_header, equal_fold, decode_string, split_at_colon,
  check_parts, constant_time_equal_string, check_decoded, check_raw, first_value,
  check_proxy_authorization, has_name, strip_proxy_authorization,
}

-- Cutting at the first colon.
split_at_colon_iff :
    (s u p : Text) → (split_at_colon s ≡ some (u, p)) ↔ ((s ≡ u ++ 58 ∷ p) × All (λ c. c ≢ 58) u)
unfolding split_at_colon
split_at_colon_iff [] [] p = (λ h. absurd cc, λ h. absurd (ground (arith, h.0)))
split_at_colon_iff [] (d ∷ u) p = (λ h. absurd cc, λ h. absurd (ground (arith, h.0)))
split_at_colon_iff (c ∷ s) [] p = elim (Option-cases (split_at_colon s)) [
  | inl e ↦ ground (arith, e, ==_iff c 58)
  | inr (x, e) ↦ ground (arith, e, ==_iff c 58)
]
split_at_colon_iff (c ∷ s) (d ∷ u) p = elim (Option-cases (split_at_colon s)) [
  | inl e ↦ ground (arith, e, ==_iff c 58, split_at_colon_iff s u p)
  | inr (x, e) ↦ ground (arith, e, ==_iff c 58, split_at_colon_iff s u p)
]

equal_fold-length : (a b : Text) → equal_fold a b ≡ true → length a ≡ length b
unfolding equal_fold
equal_fold-length [] [] h = refl
equal_fold-length [] (y ∷ ys) h = absurd cc
equal_fold-length (x ∷ xs) [] h = absurd cc
equal_fold-length (x ∷ xs) (y ∷ ys) h = ground (arith, equal_fold-length xs ys)

is_nil_iff : (t : Text) → (is_nil t ≡ true) ↔ (t ≡ [])
is_nil_iff [] = ground arith
is_nil_iff (c ∷ t) = ground arith

-- Only the configured credentials have their digests.
pub record IsUnique (digest : Text → Bytes) (c : ProxyAuthConfig) : Type 0 where
  pub username : (t : Text) → digest t ≡ digest c.username → t ≡ c.username
  pub password : (t : Text) → digest t ≡ digest c.password → t ≡ c.password

module _ (digest : Text → Bytes) (c : ProxyAuthConfig) (unique : IsUnique digest c) where
  check_parts_iff :
      (o : Option (Text × Text))
      → (check_parts digest c o ≡ true) ↔ (o ≡ some (c.username, c.password))
  unfolding check_parts constant_time_equal_string
  check_parts_iff none = ground arith
  check_parts_iff (some (u, p)) = ground (
    arith,
    text_eq_iff (digest u) (digest c.username),
    text_eq_iff (digest p) (digest c.password),
    unique.username u,
    unique.password p,
  )

  check_decoded_iff :
      (o : Option Bytes)
      → (check_decoded digest c o ≡ true)
        ↔ ((o ≡ some (c.username ++ 58 ∷ c.password)) × All (λ b. b ≢ 58) c.username)
  unfolding check_decoded
  check_decoded_iff none = ground arith
  check_decoded_iff (some d) =
      ground (arith, check_parts_iff (split_at_colon d), split_at_colon_iff d c.username c.password)

  check_raw_iff :
      (raw : Text)
      → (check_raw digest c raw ≡ true) ↔ (
          (equal_fold (take 6 raw) (codes "Basic ") ≡ true)
          × (decode_string (trim_space (drop 6 raw)) ≡ some (c.username ++ 58 ∷ c.password))
          × All (λ b. b ≢ 58) c.username)
  unfolding check_raw
  check_raw_iff raw = ground (
    arith,
    check_decoded_iff (decode_string (trim_space (drop 6 raw))),
    equal_fold-length (take 6 raw) (codes "Basic "),
    length-take 6 raw,
  )

  -- A request may use the proxy exactly if no authorisation is asked for, or a user and a password
  -- are configured, the user without a colon, and the trimmed header is "Basic ", in any case, and
  -- base64 of the two with a colon between them; if only these have their digests.
  pub check_proxy_authorization_iff :
      (header : List (Text × List Text))
      → let raw = trim_space (first_value (lookup proxy_authorization_header header)) in
        (check_proxy_authorization digest (some c) header ≡ true) ↔ (
          (c.enabled ≡ false)
          ⊎ ((c.username ≢ [])
              × (c.password ≢ [])
              × All (λ b. b ≢ 58) c.username
              × (equal_fold (take 6 raw) (codes "Basic ") ≡ true)
              × (decode_string (trim_space (drop 6 raw)) ≡ some (c.username ++ 58 ∷ c.password))))
  unfolding check_proxy_authorization
  check_proxy_authorization_iff header =
      let raw = trim_space (first_value (lookup proxy_authorization_header header)) in
      ground (arith, check_raw_iff raw, is_nil_iff c.username, is_nil_iff c.password)

-- A name that is not the header's, in any case.
abbrev pub IsOther : Text → Type 0
IsOther name = equal_fold name proxy_authorization_header ≡ false

has_name-IsOther :
    (raw : List (Text × Text))
    → has_name proxy_authorization_header raw ≡ false
    → All (λ kv. IsOther kv.0) raw
unfolding has_name
has_name-IsOther [] h = tt
has_name-IsOther (kv ∷ raw) h = elim (Bool-cases (equal_fold kv.0 proxy_authorization_header)) [
  | inl e ↦ absurd (ground (arith, e))
  | inr e ↦ (e, has_name-IsOther raw (ground (arith, e)))
]

select-IsOther :
    (raw : List (Text × Text))
    → All (λ kv. IsOther kv.0) (select (λ kv. not (equal_fold kv.0 proxy_authorization_header)) raw)
select-IsOther [] = tt
select-IsOther (kv ∷ raw) =
    if_elim (All (λ (e : Text × Text). IsOther e.0))
      (not (equal_fold kv.0 proxy_authorization_header)) _ _
      (λ e. (ground arith, select-IsOther raw)) (λ _. select-IsOther raw)

-- Keys of a map of headers: a key that is the header's name but for the case is its canonical form.
abbrev pub IsCanonical : Text × List Text → Type 0
IsCanonical e =
    (equal_fold e.0 proxy_authorization_header ≡ false) ⊎ (e.0 ≡ proxy_authorization_header)

remove-IsOther :
    (header : List (Text × List Text))
    → All IsCanonical header
    → All (λ e. IsOther e.0) (remove proxy_authorization_header header)
unfolding remove
remove-IsOther [] a = tt
remove-IsOther ((k, v) ∷ header) a =
    if_elim (All (λ (e : Text × List Text). IsOther e.0)) (text_eq k proxy_authorization_header) _ _
      (λ _. remove-IsOther header a.1)
      (λ n.
        (ground (arith, text_eq_iff k proxy_authorization_header, a.0), remove-IsOther header a.1))

-- After `stripProxyAuthorization` no header that is written to the server, in whatever order, has
-- the name of the one with the proxy's credentials, in any case; if the keys are canonical.
pub strip-hides :
    (canon : Text → Text) (header : List (Text × List Text)) (raw : List (Text × Text))
    → All IsCanonical header
    → let stripped = strip_proxy_authorization header (some raw) in
      (kept : List (Text × Text)) × (stripped.1 ≡ some kept)
      × All (λ kv. IsOther kv.0) (reconcile_ordered_headers canon kept stripped.0)
unfolding strip_proxy_authorization
strip-hides canon header raw a = elim (Bool-cases (has_name proxy_authorization_header raw)) [
  | inl e ↦ (
    select (λ kv. not (equal_fold kv.0 proxy_authorization_header)) raw,
    rw e,
    reconcile-Named IsOther canon _ _ (select-IsOther raw) (remove-IsOther header a),
  )
  | inr e ↦ (
    raw,
    rw e,
    reconcile-Named IsOther canon raw _ (has_name-IsOther raw e) (remove-IsOther header a),
  )
]
