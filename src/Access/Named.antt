-- ===== src/Access/Named.antt =====
-- capture/processors/http/scope.go: `hostOnly` on the forms in which a connection names its host.
use sniffy.Common.{
  ℕ, suc, ◌+◌, ◌-◌, ◌≡◌, ◌≢◌, refl, ap, false, [], ◌∷◌, ◌++◌, none, some, arith, All, take, drop,
  length, take-append, append_assoc, length-append, sym, ◌∙◌, ◌==◌, ==_iff,
}
use sniffy.Common.Bytes.{Text}
use sniffy.Access.HostPort.{
  index_byte, last_index_byte, has_byte, plain_host, bracket_host, split_host_port,
}
use sniffy.Access.Scope.{host_only}

-- No byte of the text is the given one.
abbrev pub Lacks : ℕ → Text → Type 0
Lacks b s = All (λ c. c ≢ b) s

-- A text without colons and brackets.
abbrev pub IsPlain : Text → Type 0
IsPlain s = Lacks 58 s × Lacks 91 s × Lacks 93 s

-- The host that `host`, `host:port` or `[host]:port` names.
pub data Names : Text → Text → Type 0 where
  bare : {host : Text} → IsPlain host → Names host host
  with_port :
      {host : Text} (port : Text) → IsPlain host → IsPlain port → Names (host ++ 58 ∷ port) host
  in_brackets :
      {host : Text} (port : Text)
      → Lacks 91 host
      → Lacks 93 host
      → IsPlain port
      → Names (91 ∷ (host ++ 93 ∷ 58 ∷ port)) host

last_index_byte-Lacks : (b : ℕ) (s : Text) → Lacks b s → last_index_byte b s ≡ none
unfolding last_index_byte
last_index_byte-Lacks b [] a = refl
last_index_byte-Lacks b (c ∷ s) a = ground (arith, ==_iff c b, a.0, last_index_byte-Lacks b s a.1)

last_index_byte-here :
    (b : ℕ) (s t : Text) → Lacks b t → last_index_byte b (s ++ b ∷ t) ≡ some (length s)
unfolding last_index_byte
last_index_byte-here b [] t a = ground (arith, ==_iff b b, last_index_byte-Lacks b t a)
last_index_byte-here b (c ∷ s) t a = ground (arith, last_index_byte-here b s t a)

index_byte-Lacks : (b : ℕ) (s : Text) → Lacks b s → index_byte b s ≡ none
unfolding index_byte
index_byte-Lacks b [] a = refl
index_byte-Lacks b (c ∷ s) a = ground (arith, ==_iff c b, a.0, index_byte-Lacks b s a.1)

index_byte-here : (b : ℕ) (s t : Text) → Lacks b s → index_byte b (s ++ b ∷ t) ≡ some (length s)
unfolding index_byte
index_byte-here b [] t a = ground (arith, ==_iff b b)
index_byte-here b (c ∷ s) t a = ground (arith, ==_iff c b, a.0, index_byte-here b s t a.1)

has_byte-Lacks : (b : ℕ) (s : Text) → Lacks b s → has_byte b s ≡ false
unfolding has_byte
has_byte-Lacks b s a = rw (has_byte, index_byte-Lacks b s a)

Lacks-append : (b : ℕ) (s t : Text) → Lacks b s → Lacks b t → Lacks b (s ++ t)
Lacks-append b [] t a c = c
Lacks-append b (x ∷ s) t a c = (a.0, Lacks-append b s t a.1 c)

plain_host-plain :
    (host port : Text)
    → IsPlain host
    → IsPlain port
    → plain_host (host ++ 58 ∷ port) (length host) ≡ some host
unfolding plain_host
plain_host-plain host port a b =
    let open_ = Lacks-append 91 host (58 ∷ port) a.1 (omega arith, b.1) in
    let close = Lacks-append 93 host (58 ∷ port) a.2 (omega arith, b.2) in
    rw (
      take-append host (58 ∷ port),
      has_byte-Lacks 58 host a.0,
      has_byte-Lacks 91 (host ++ 58 ∷ port) open_,
      has_byte-Lacks 93 (host ++ 58 ∷ port) close,
    )

split_host_port-bare : (host : Text) → Lacks 58 host → split_host_port host ≡ none
unfolding split_host_port
split_host_port-bare [] a = refl
split_host_port-bare (c ∷ s) a = rw (split_host_port, last_index_byte-Lacks 58 (c ∷ s) a)

split_host_port-at :
    (c i : ℕ) (s : Text)
    → last_index_byte 58 (c ∷ s) ≡ some i
    → c ≢ 91
    → split_host_port (c ∷ s) ≡ plain_host (c ∷ s) i
unfolding split_host_port plain_host
split_host_port-at c i s l n =
    let e : (c == 91) ≡ false = ground (arith, ==_iff c 91, n) in rw (split_host_port, l, e)

split_host_port-port :
    (host port : Text)
    → IsPlain host
    → IsPlain port
    → split_host_port (host ++ 58 ∷ port) ≡ some host
split_host_port-port [] port a b =
    split_host_port-at 58 0 port (last_index_byte-here 58 [] port b.0) (omega arith)
    ∙ plain_host-plain [] port a b
split_host_port-port (c ∷ s) port a b =
    split_host_port-at c (length (c ∷ s)) (s ++ 58 ∷ port)
      (last_index_byte-here 58 (c ∷ s) port b.0) a.1.0
    ∙ plain_host-plain (c ∷ s) port a b

bracket_host-brackets :
    (host port : Text)
    → Lacks 91 host
    → Lacks 93 host
    → IsPlain port
    → bracket_host (91 ∷ (host ++ 93 ∷ 58 ∷ port)) (length host + 2) (some (length host + 1))
      ≡ some host
unfolding bracket_host
bracket_host-brackets host port a b p =
    let open_ = Lacks-append 91 host (93 ∷ 58 ∷ port) a (omega arith, (omega arith, p.1)) in
    let d : drop (length host + 1) (host ++ 93 ∷ 58 ∷ port) ≡ 58 ∷ port = behind host port in
    let h = has_byte-Lacks 91 (host ++ 93 ∷ 58 ∷ port) open_ in
    let k = has_byte-Lacks 93 (58 ∷ port) (omega arith, p.2) in
    let t : take (length host + 1 - 1) (host ++ 93 ∷ 58 ∷ port) ≡ host =
      ap (λ n. take n (host ++ 93 ∷ 58 ∷ port)) (omega arith) ∙ take-append host (93 ∷ 58 ∷ port) in
    ground (arith, d, h, k, t)
  where
    behind : (h q : Text) → drop (length h + 1) (h ++ 93 ∷ 58 ∷ q) ≡ 58 ∷ q
    behind [] q = refl
    behind (c ∷ h) q =
        let n : suc (length h) + 1 ≡ suc (length h + 1) = omega arith in rw n (behind h q)

last_colon :
    (host port : Text)
    → Lacks 58 port
    → last_index_byte 58 (91 ∷ (host ++ 93 ∷ 58 ∷ port)) ≡ some (length host + 2)
last_colon host port p =
    let e : (91 ∷ host ++ 93 ∷ []) ++ 58 ∷ port ≡ 91 ∷ (host ++ 93 ∷ 58 ∷ port) =
      append_assoc (91 ∷ host) (93 ∷ []) (58 ∷ port) in
    let n : suc (length (host ++ 93 ∷ [])) ≡ length host + 2 =
      omega (arith, length-append host (93 ∷ [])) in
    ap (last_index_byte 58) (sym e)
    ∙ last_index_byte-here 58 (91 ∷ host ++ 93 ∷ []) port p
    ∙ ap some n

first_bracket :
    (host rest : Text)
    → Lacks 93 host
    → index_byte 93 (91 ∷ (host ++ 93 ∷ rest)) ≡ some (length host + 1)
first_bracket host rest a =
    index_byte-here 93 (91 ∷ host) rest (omega arith, a)
    ∙ ap some (let n : suc (length host) ≡ length host + 1 = omega arith in n)

split_host_port-brackets :
    (host port : Text)
    → Lacks 91 host
    → Lacks 93 host
    → IsPlain port
    → split_host_port (91 ∷ (host ++ 93 ∷ 58 ∷ port)) ≡ some host
unfolding split_host_port
split_host_port-brackets host port a b p =
    rw (split_host_port, last_colon host port p.0, first_bracket host (58 ∷ port) b)
      (bracket_host-brackets host port a b p)

-- What is left of a connection's name is the host, in lower case.
pub host_only-Names :
    (lower : Text → Text) (hostport host : Text)
    → Names hostport host
    → host_only lower hostport ≡ lower host
unfolding host_only
host_only-Names lower hostport host (bare a) = rw (host_only, split_host_port-bare host a.0)
host_only-Names lower hostport host (with_port port a b) =
    rw (host_only, split_host_port-port host port a b)
host_only-Names lower hostport host (in_brackets port a b p) =
    rw (host_only, split_host_port-brackets host port a b p)
