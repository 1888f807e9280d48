-- ===== src/Detection/Choice.antt =====
-- capture/processors/registry.go: a connection gets the processor that its first byte asks for.
use sniffy.Common.{ℕ, ◌≡◌, refl, ap, ◌∙◌, Bool, true, false, [], ◌∷◌, ◌==◌, if◌then◌else◌, arith}
use sniffy.Common.Bytes.{Text, Bytes, codes, text_eq}
use sniffy.Common.Dict.{lookup, insert, lookup-insert, lookup-remove}
use sniffy.Detection.{
  Processors, Registry, is_method, detect_tls_protocol, detect_ssh_protocol,
  detect_numeric_protocol, detect_advanced_protocol, detect_protocol, register, unregister,
  new_registry, get_processor, processor_of,
}

-- One of the bytes of a text.
abbrev pub one_of : Text → ℕ → Bool
one_of [] c = false
one_of (x ∷ xs) c = if c == x then true else one_of xs c

is_method-one_of : (c : ℕ) → is_method c ≡ one_of (codes "GPDOHC") c
unfolding is_method
is_method-one_of c = ground arith

-- The protocol that the first byte alone asks for.
abbrev protocol_of : Bytes → Text
protocol_of [] = codes "TCP"
protocol_of (c ∷ b) =
    if one_of (codes "GPDOHC") c
    then codes "HTTP"
    else if c == 5
    then codes "SOCKS5"
    else codes "TCP"

detect_ssh_protocol-tcp : (b : Bytes) → detect_ssh_protocol b ≡ codes "TCP"
unfolding detect_ssh_protocol
detect_ssh_protocol-tcp b = ground arith

detect_numeric_protocol-tcp : (b : Bytes) → detect_numeric_protocol b ≡ codes "TCP"
unfolding detect_numeric_protocol
detect_numeric_protocol-tcp b = ground arith

detect_advanced_protocol-tcp : (b : Bytes) → detect_advanced_protocol b ≡ codes "TCP"
unfolding detect_advanced_protocol
detect_advanced_protocol-tcp b = ground arith

-- The further bytes that are peeked change nothing.
pub detect_protocol-first : (b : Bytes) → detect_protocol b ≡ protocol_of b
unfolding detect_protocol detect_tls_protocol
detect_protocol-first [] = refl
detect_protocol-first (c ∷ b) = ground (
  arith,
  detect_ssh_protocol-tcp (c ∷ b),
  detect_numeric_protocol-tcp (c ∷ b),
  detect_advanced_protocol-tcp (c ∷ b),
)

module _ {ℓ κ} {C : Type ℓ} {P : Type κ} (news : Processors C P) where
  -- The processor of a connection that has sent nothing, or that begins with a byte.
  abbrev pub chosen : Bytes → C → P
  chosen [] = news.new_tcp
  chosen (c ∷ b) =
      if one_of (codes "GPDOHC") c
      then news.new_http
      else if c == 5
      then news.new_socks5
      else news.new_tcp

  asked :
      (m five : Bool) (conn : C)
      → get_processor news
          (new_registry news)
          (if m then codes "HTTP" else if five then codes "SOCKS5" else codes "TCP")
          conn
        ≡ (if m then news.new_http else if five then news.new_socks5 else news.new_tcp) conn
  unfolding get_processor new_registry register insert lookup text_eq
  asked true five conn = refl
  asked false true conn = refl
  asked false false conn = refl

  -- With the default processors, a connection goes to HTTP exactly if its first byte is one of the
  -- letters G, P, D, O, H, C, to SOCKS5 exactly if it is 5, and to the plain TCP processor otherwise,
  -- also if nothing can be read. (The letters begin GET, POST, PUT, PATCH, DELETE, OPTIONS, HEAD and
  -- CONNECT; TRACE goes to TCP.)
  pub processor_of-new :
      (b : Bytes) (conn : C) → processor_of news (new_registry news) b conn ≡ chosen b conn
  unfolding processor_of
  processor_of-new [] conn = asked false false conn
  processor_of-new (c ∷ b) conn =
      let first = detect_protocol-first (c ∷ b) in
      ap (λ p. get_processor news (new_registry news) p conn) first
      ∙ asked (one_of (codes "GPDOHC") c) (c == 5) conn

  -- Registering a protocol changes the processor of that protocol alone.
  pub get_processor-register :
      (r : Registry C P) (p q : Text) (f : C → P) (conn : C)
      → get_processor news (register p f r) q conn
        ≡ (if text_eq p q then f conn else get_processor news r q conn)
  unfolding get_processor register
  get_processor-register r p q f conn = ground (arith, lookup-insert p q f r.factories)

  -- An unregistered protocol goes to the plain TCP processor, and no other protocol changes.
  pub get_processor-unregister :
      (r : Registry C P) (p q : Text) (conn : C)
      → get_processor news (unregister p r) q conn
        ≡ (if text_eq p q then news.new_tcp conn else get_processor news r q conn)
  unfolding get_processor unregister
  get_processor-unregister r p q conn = ground (arith, lookup-remove p q r.factories)
