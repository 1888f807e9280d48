-- ===== src/Access/Hosts.antt =====
-- capture/processors/http/scope.go: the hosts that a scope means.
use sniffy.Common.{
  is_nil, ◌≡◌, ◌≢◌, ◌↔◌, ◌⊎◌, refl, subst, inl, inr, Bool, true, false, ◌||◌, List, [], ◌∷◌, Option,
  none, some, arith, ==_iff, Bool-cases,
}
use sniffy.Common.Bytes.{Text, codes, text_eq_iff}
use sniffy.Common.Trim.{trim_space, cut_prefix}
use sniffy.Common.Utf8.{valid_utf8}
use sniffy.Common.Wildcard.{
  glob_to_regex, match_string, Glob, match_string_iff_Glob, glob_to_regex-star,
}
use sniffy.Access.Scope.{
  HostPattern, below, match_host, match_any_host, allows, pattern_of, compile_lowered,
  compile_host_pattern, with_pattern, compile_host_patterns, set_decrypt_scope, should_decrypt,
}
use sniffy.Access.Named.{Names, host_only-Names}

-- A host is meant by a pattern that is trimmed and in lower case: as a wildcard, or, behind `*.`,
-- also without anything in front.
pub data Meant : Text → Text → Type 0 where
  as_wildcard : {p host : Text} → p ≢ [] → Glob p host → Meant p host
  as_apex :
      {p host rest : Text} → cut_prefix p (codes "*.") ≡ some rest → Glob rest host → Meant p host

cut_prefix-star : (p rest : Text) → cut_prefix p (codes "*.") ≡ some rest → p ≡ 42 ∷ 46 ∷ rest
unfolding cut_prefix
cut_prefix-star [] rest h = absurd cc
cut_prefix-star (x ∷ []) rest h = ground (arith, ==_iff x 42)
cut_prefix-star (x ∷ y ∷ p) rest h = ground (arith, ==_iff x 42, ==_iff y 46)

-- Some pattern, which in lower case is UTF-8, means the host.
pub data AnyMeant (lower : Text → Text) (host : Text) : List Text → Type 0 where
  here :
      {p : Text} {pats : List Text}
      → valid_utf8 (lower (trim_space p)) ≡ true
      → Meant (lower (trim_space p)) host
      → AnyMeant lower host (p ∷ pats)
  there : {p : Text} {pats : List Text} → AnyMeant lower host pats → AnyMeant lower host (p ∷ pats)

-- What a compiled pattern, if there is one, matches.
abbrev matches_some : Option HostPattern → Text → Bool
matches_some none host = false
matches_some (some re) host = match_host re host

below-Meant :
    (p rest host : Text)
    → cut_prefix p (codes "*.") ≡ some rest
    → match_host (below (glob_to_regex rest)) host
      ≡ (match_string (glob_to_regex rest) host || match_string (glob_to_regex p) host)
unfolding match_host
below-Meant p rest host e = rw (cut_prefix-star p rest e, glob_to_regex-star 46 rest (omega arith))

Meant-cases :
    {p host : Text}
    → Meant p host
    → Glob p host ⊎ ((rest : Text) × (cut_prefix p (codes "*.") ≡ some rest) × Glob rest host)
Meant-cases (as_wildcard n g) = inl g
Meant-cases (as_apex {rest} e g) = inr (rest, e, g)

or_true : (a b : Bool) → (a || b) ≡ true → (a ≡ true) ⊎ (b ≡ true)
or_true true b h = inl refl
or_true false b h = inr h

or_left : (a b : Bool) → a ≡ true → (a || b) ≡ true
or_left a b h = ground arith

or_right : (a b : Bool) → b ≡ true → (a || b) ≡ true
or_right a b h = ground arith

pattern_of-Meant :
    (p host : Text) (o : Option Text)
    → p ≢ []
    → cut_prefix p (codes "*.") ≡ o
    → (match_host (pattern_of p o) host ≡ true) ↔ Meant p host
unfolding pattern_of
pattern_of-Meant p host none n e =
    let i = match_string_iff_Glob p host in
    unfold match_host in
    (
      λ h. as_wildcard n (i.0 h),
      λ m. elim (Meant-cases m) [
        | inl g ↦ i.1 g
        | inr (rest, e', g) ↦ absurd (ground (arith, e, e'))
      ],
    )
pattern_of-Meant p host (some rest) n e =
    let i = match_string_iff_Glob p host in
    let j = match_string_iff_Glob rest host in
    let a = match_string (glob_to_regex rest) host in
    let b = match_string (glob_to_regex p) host in
    rw (below-Meant p rest host e) (
      λ h. elim (or_true a b h) [ inl x ↦ as_apex e (j.0 x) | inr y ↦ as_wildcard n (i.0 y) ],
      λ m. elim (Meant-cases m) [
        | inl g ↦ or_right a b (i.1 g)
        | inr (rest', e', g) ↦
            let r : rest' ≡ rest = cc in or_left a b (j.1 (subst (λ q. Glob q host) r g))
      ],
    )

empty_not-Meant : (host : Text) → Meant [] host → false ≡ true
empty_not-Meant host (as_wildcard n g) = absurd (n refl)
empty_not-Meant host (as_apex {rest} e g) = absurd (ground (arith, cut_prefix-star [] rest e))

compile_lowered-Meant :
    (p host : Text)
    → (matches_some (compile_lowered p) host ≡ true) ↔ ((valid_utf8 p ≡ true) × Meant p host)
unfolding compile_lowered
compile_lowered-Meant [] host = (λ h. absurd cc, λ m. empty_not-Meant host m.1)
compile_lowered-Meant (c ∷ p) host =
    let i = pattern_of-Meant (c ∷ p) host _ (ground arith) refl in
    elim (Bool-cases (valid_utf8 (c ∷ p))) [
      | inl e ↦ rw e (λ h. (refl, i.0 h), λ m. i.1 m.1)
      | inr e ↦ rw e (λ h. absurd cc, λ m. m.0)
    ]

with_pattern-match :
    (o : Option HostPattern) (res : List HostPattern) (host : Text)
    → match_any_host (with_pattern o res) host ≡ (matches_some o host || match_any_host res host)
unfolding with_pattern match_any_host
with_pattern-match none res host = refl
with_pattern-match (some re) res host = ground arith

AnyMeant-cases :
    {lower : Text → Text} {host p : Text} {pats : List Text}
    → AnyMeant lower host (p ∷ pats)
    → ((valid_utf8 (lower (trim_space p)) ≡ true) × Meant (lower (trim_space p)) host)
      ⊎ AnyMeant lower host pats
AnyMeant-cases (here v m) = inl (v, m)
AnyMeant-cases (there m) = inr m

AnyMeant-is_nil :
    {lower : Text → Text} {host : Text} {pats : List Text}
    → AnyMeant lower host pats
    → is_nil pats ≡ false
AnyMeant-is_nil (here v m) = refl
AnyMeant-is_nil (there m) = refl

match_any_host-AnyMeant :
    (lower : Text → Text) (pats : List Text) (host : Text)
    → (match_any_host (compile_host_patterns lower pats) host ≡ true) ↔ AnyMeant lower host pats
unfolding compile_host_patterns match_any_host
match_any_host-AnyMeant lower [] host = (λ h. absurd cc, λ m. absurd (cc (AnyMeant-is_nil m)))
match_any_host-AnyMeant lower (p ∷ pats) host =
    let c = compile_host_pattern lower p in
    let a = matches_some c host in
    let b = match_any_host (compile_host_patterns lower pats) host in
    let i : (a ≡ true)
        ↔ ((valid_utf8 (lower (trim_space p)) ≡ true) × Meant (lower (trim_space p)) host) =
      unfold compile_host_pattern in compile_lowered-Meant (lower (trim_space p)) host in
    let j = match_any_host-AnyMeant lower pats host in
    rw (with_pattern-match c (compile_host_patterns lower pats) host) (
      λ h. elim (or_true a b h) [ inl x ↦ here (i.0 x).0 (i.0 x).1 | inr y ↦ there (j.0 y) ],
      λ m. elim (AnyMeant-cases m) [ inl x ↦ or_left a b (i.1 x) | inr y ↦ or_right a b (j.1 y) ],
    )

-- With a scope that has been set, a connection to a host, named alone, with a port or in brackets with
-- a port, is decrypted exactly if decryption is on, and in the mode
-- "allow" some pattern of the first list means the host in lower case, in the mode "deny" none of the second does,
-- and in any other mode always. A pattern means a host as a wildcard, and behind `*.` the host itself
-- too. The port does not count.
pub should_decrypt_iff :
    (lower : Text → Text) (enabled : Bool) (mode : Text) (allow deny : List Text)
    (hostport host : Text)
    → Names hostport host
    → (should_decrypt lower (set_decrypt_scope lower enabled mode allow deny) hostport ≡ true) ↔ (
        (enabled ≡ true)
        × (((mode ≡ codes "allow") × AnyMeant lower (lower host) allow)
            ⊎ ((mode ≡ codes "deny") × ¬ AnyMeant lower (lower host) deny)
            ⊎ ((mode ≢ codes "allow") × (mode ≢ codes "deny"))))
unfolding should_decrypt set_decrypt_scope allows
should_decrypt_iff lower enabled mode allow deny hostport host named =
    let e = host_only-Names lower hostport host named in
    let i = match_any_host-AnyMeant lower allow (lower host) in
    let j = match_any_host-AnyMeant lower deny (lower host) in
    let k = text_eq_iff mode (codes "allow") in
    let l = text_eq_iff mode (codes "deny") in
    let d : codes "deny" ≢ codes "allow" = λ e. absurd (ground (arith, e)) in
    rw e (ground (arith, i, j, k, l, d))
