-- ===== src/Breakpoint/Match.antt =====
-- internal/pipeline/breakpoint.go: `ShouldBreakFor` with its cache of compiled patterns against what
-- the rules mean.
use sniffy.Common.{
  ℕ, ◌≡◌, ◌↔◌, refl, subst, ◌⊎◌, inl, inr, Bool, true, not, List, [], ◌∷◌, none, arith,
  if◌then◌else◌, Bool-cases, if_elim, All, map,
}
use sniffy.Common.Bytes.{Text, Bytes, text_eq, text_eq_iff, contains}
use sniffy.Common.Trim.{trim_space}
use sniffy.Common.Utf8.{valid_utf8}
use sniffy.Common.Wildcard.{Glob, asterisk, match_string_iff_Glob}
use sniffy.Flow.{Phase, request_phase, response_phase, unknown_phase}
use sniffy.Breakpoint.State.{
  Manager, BreakRule, compile_wildcard, matches_compiled, refresh, matches_pattern, matches_locked,
  covers, scan, should_break, should_break_for,
}

-- What a trimmed pattern means for a URL: an empty one matches nothing, one without an asterisk is
-- looked for in the URL, any other must be UTF-8 and match the whole of it.
abbrev pub PatternMatches : Text → Text → Type 0
PatternMatches [] url = ⊥
PatternMatches (c ∷ p) url =
    if contains (c ∷ p) (asterisk ∷ [])
    then (valid_utf8 (c ∷ p) ≡ true) × Glob (c ∷ p) url
    else contains url (c ∷ p) ≡ true

-- The switch of the phase is on; an unknown phase has none.
abbrev pub SwitchedOn : Manager → Phase → Type 0
SwitchedOn b request_phase = b.break_request ≡ true
SwitchedOn b response_phase = b.break_response ≡ true
SwitchedOn b (unknown_phase p) = ⊥

-- A rule is for the phase; every rule is for an unknown one.
abbrev pub IsFor : BreakRule → Phase → Type 0
IsFor r request_phase = r.on_request ≡ true
IsFor r response_phase = r.on_response ≡ true
IsFor r (unknown_phase p) = Unit

should_break_iff :
    (b : Manager) (phase : Phase) → (should_break b phase ≡ true) ↔ SwitchedOn b phase
unfolding should_break
should_break_iff b request_phase = (λ h. h, λ h. h)
should_break_iff b response_phase = (λ h. h, λ h. h)
should_break_iff b (unknown_phase p) = ground arith

covers_iff : (r : BreakRule) (phase : Phase) → (covers r phase ≡ true) ↔ IsFor r phase
unfolding covers
covers_iff r request_phase = (λ h. h, λ h. h)
covers_iff r response_phase = (λ h. h, λ h. h)
covers_iff r (unknown_phase p) = (λ _. tt, λ _. refl)

abbrev pub Hits : Text → Phase → BreakRule → Type 0
Hits url phase r = (r.enabled ≡ true) × IsFor r phase × PatternMatches (trim_space r.url) url

abbrev pub SomeHit : Text → Phase → List BreakRule → Type 0
SomeHit url phase [] = ⊥
SomeHit url phase (r ∷ rs) = Hits url phase r ⊎ SomeHit url phase rs

-- The cache is empty, or holds what its source compiles to.
abbrev pub CacheHolds : BreakRule → Type 0
CacheHolds r = (r.re_src ≡ []) ⊎ (r.re ≡ compile_wildcard r.re_src)

-- The rules but for their caches.
abbrev pub uncached : BreakRule → BreakRule
uncached r = record r { re_src = []; re = none }

refresh-compiled :
    (r : BreakRule) (c : ℕ) (p : Bytes)
    → CacheHolds r
    → (refresh r (c ∷ p)).re ≡ compile_wildcard (c ∷ p)
unfolding refresh
refresh-compiled r c p (inl e) = ground (arith, text_eq_iff r.re_src (c ∷ p))
refresh-compiled r c p (inr e) = elim (Bool-cases (text_eq r.re_src (c ∷ p))) [
  | inl k ↦
      rw (k, refresh)
        (subst (λ s. r.re ≡ compile_wildcard s) ((text_eq_iff r.re_src (c ∷ p)).0 k) e)
  | inr k ↦ rw (k, refresh)
]

refresh-CacheHolds : (r : BreakRule) (p : Bytes) → CacheHolds r → CacheHolds (refresh r p)
unfolding refresh
refresh-CacheHolds r p h = elim (Bool-cases (text_eq r.re_src p)) [
  | inl k ↦ rw (k, refresh) h
  | inr k ↦ rw (k, refresh) (inr refl)
]

refresh-uncached : (r : BreakRule) (p : Bytes) → uncached (refresh r p) ≡ uncached r
unfolding refresh
refresh-uncached r p = ground arith

compiled_iff :
    (p url : Text)
    → (matches_compiled (compile_wildcard p) url ≡ true) ↔ ((valid_utf8 p ≡ true) × Glob p url)
unfolding matches_compiled compile_wildcard
compiled_iff p url = ground (arith, match_string_iff_Glob p url)

-- What one look at a rule gives and leaves.
record Looked (r : BreakRule) (p : Text) (url : Text) (out : BreakRule × Bool) : Type 0 where
  answer : (out.1 ≡ true) ↔ PatternMatches p url
  cache : CacheHolds out.0
  same : uncached out.0 ≡ uncached r

matches_pattern-Looked :
    (r : BreakRule) (p url : Text) → CacheHolds r → Looked r p url (matches_pattern r p url)
unfolding matches_pattern
matches_pattern-Looked r [] url h = record { answer = ground arith; cache = h; same = refl }
matches_pattern-Looked r (c ∷ p) url h = elim (Bool-cases (contains (c ∷ p) (asterisk ∷ []))) [
  | inl e ↦ record {
    answer = rw (e, matches_pattern) (rw (refresh-compiled r c p h) (compiled_iff (c ∷ p) url));
    cache = rw (e, matches_pattern) (refresh-CacheHolds r (c ∷ p) h);
    same = rw (e, matches_pattern) (refresh-uncached r (c ∷ p));
  }
  | inr e ↦ record {
    answer = rw (e, matches_pattern) ((λ x. x), (λ x. x));
    cache = rw (e, matches_pattern) h;
    same = rw (e, matches_pattern);
  }
]

record Scanned (rs : List BreakRule) (url : Text) (phase : Phase) (out : List BreakRule × Bool)
    : Type 0 where
  pub answer : (out.1 ≡ true) ↔ SomeHit url phase rs
  pub cache : All CacheHolds out.0
  pub same : map uncached out.0 ≡ map uncached rs

-- A rule that is passed over, by its switch, its phase or its pattern.
scan-miss :
    {r r' : BreakRule} {rs : List BreakRule} {url : Text} {phase : Phase}
    (out : List BreakRule × Bool)
    → ¬ Hits url phase r
    → CacheHolds r'
    → uncached r' ≡ uncached r
    → Scanned rs url phase out
    → Scanned (r ∷ rs) url phase (r' ∷ out.0, out.1)
scan-miss out n c e s = record {
  answer = ((λ h. inr (s.answer.0 h)), λ h. elim h [ inl k ↦ absurd (n k) | inr k ↦ s.answer.1 k ]);
  cache = (c, s.cache);
  same = λ i. e i ∷ s.same i;
}

scan-Scanned :
    (rs : List BreakRule) (url : Text) (phase : Phase)
    → All CacheHolds rs
    → Scanned rs url phase (scan rs url phase)
unfolding scan
scan-Scanned [] url phase h = record { answer = ground arith; cache = tt; same = refl }
scan-Scanned (r ∷ rs) url phase h =
    let ih = scan-Scanned rs url phase h.1 in
    let looked = matches_pattern-Looked r (trim_space r.url) url h.0 in
    let P : List BreakRule × Bool → Type 0 = Scanned (r ∷ rs) url phase in
    if_elim P (not r.enabled) _ _ (λ off. scan-miss _ (λ k. ground arith) h.0 refl ih)
      λ on.
        if_elim P (not (covers r phase)) _ _
          (λ out. scan-miss _ (λ k. ground (arith, (covers_iff r phase).1 k.1)) h.0 refl ih)
          λ within.
            if_elim P (matches_locked r url).1 _ _
              (λ hit. record {
                answer = (
                  (λ _.
                      inl
                        (ground arith, (covers_iff r phase).0 (ground arith), looked.answer.0 hit)),
                  λ _. refl,
                );
                cache = (looked.cache, h.1);
                same = λ i. looked.same i ∷ map uncached rs;
              })
              (λ miss.
                scan-miss _ (λ k. ground (arith, looked.answer.1 k.2)) looked.cache looked.same ih)

-- A flow is stopped exactly when the switch of its phase is on (an unknown phase has none), or some
-- rule that is enabled and for the phase (for an unknown phase: any that is enabled) means its URL;
-- the cached patterns answer as freshly compiled ones would, stay right,
-- and nothing but the caches of the rules changes. This assumes that the caches are right before.
pub should_break_for_iff :
    (b : Manager) (url : Text) (phase : Phase)
    → All CacheHolds b.rules
    → let out = should_break_for b url phase in
      ((out.1 ≡ true) ↔ (SwitchedOn b phase ⊎ SomeHit url phase b.rules))
      × All CacheHolds out.0.rules
      × (map uncached out.0.rules ≡ map uncached b.rules)
      × (record out.0 { rules = b.rules } ≡ b)
unfolding should_break_for
should_break_for_iff b url phase h =
    let s = scan-Scanned b.rules url phase h in
    if_elim
      (λ (out : Manager × Bool).
        ((out.1 ≡ true) ↔ (SwitchedOn b phase ⊎ SomeHit url phase b.rules))
        × All CacheHolds out.0.rules
        × (map uncached out.0.rules ≡ map uncached b.rules)
        × (record out.0 { rules = b.rules } ≡ b))
      (should_break b phase) _ _
      (λ on. (((λ _. inl ((should_break_iff b phase).0 on)), λ _. refl), h, refl, refl))
      λ off. (
        (
          (λ k. inr (s.answer.0 k)),
          λ k. elim k [
            | inl e ↦ let e' = (should_break_iff b phase).1 e in cc
            | inr e ↦ s.answer.1 e
          ],
        ),
        s.cache,
        s.same,
        refl,
      )
