-- ===== src/Detection.antt =====
-- capture/processors/registry.go and constants.go: which processor takes a new connection.
-- A connection is given by the bytes that can be peeked before an error; logging is left out.
use sniffy.Common.{
  ℕ, Bool, ◌||◌, List, [], ◌∷◌, Option, none, some, length, take, leb, ◌==◌, if◌then◌else◌,
}
use sniffy.Common.Bytes.{Text, Bytes, codes, text_eq}
use sniffy.Common.Dict.{lookup, insert, remove}
pub mod Choice

-- `tcp.New`, `http.New` and `socks5.New`.
pub record Processors {ℓ κ} (C : Type ℓ) (P : Type κ) : Type (ℓ ⊔ κ) where
  pub new_http : C → P
  pub new_socks5 : C → P
  pub new_tcp : C → P

pub record Registry {ℓ κ} (C : Type ℓ) (P : Type κ) : Type (ℓ ⊔ κ) where
  pub factories : List (Text × (C → P))

-- `reader.Peek(n)`.
unfoldable pub peek : ℕ → Bytes → Option Bytes
peek n b = if leb n (length b) then some (take n b) else none

unfoldable pub is_method : ℕ → Bool
is_method c = (c == 71) || ((c == 80) || ((c == 68) || ((c == 79) || ((c == 72) || (c == 67)))))

unfoldable pub is_tls : ℕ → Bool
is_tls c = (c == 22) || ((c == 21) || (c == 23))

unfoldable pub detect_tls_protocol : Bytes → Text
detect_tls_protocol b = codes "TCP"

unfoldable pub detect_ssh_protocol : Bytes → Text
unfolding peek
detect_ssh_protocol b = elim (peek 8 b) [
  | none ↦ codes "TCP"
  | some header ↦
      if text_eq (take 7 header) (codes "SSH-2.0")
      then codes "TCP"
      else if text_eq header (codes "SSH-1.99")
      then codes "TCP"
      else codes "TCP"
]

unfoldable pub detect_numeric_protocol : Bytes → Text
unfolding peek
detect_numeric_protocol b = elim (peek 12 b) [
  | none ↦ codes "TCP"
  | some header ↦
      let code = take 3 header in
      if text_eq code (codes "220") || (text_eq code (codes "230") || text_eq code (codes "530"))
      then codes "TCP"
      else if text_eq code (codes "250")
      then codes "TCP"
      else codes "TCP"
]

unfoldable pub detect_advanced_protocol : Bytes → Text
unfolding peek
detect_advanced_protocol b = elim (peek 16 b) [ none ↦ codes "TCP" | some header ↦ codes "TCP" ]

-- `DetectProtocol`.
unfoldable pub detect_protocol : Bytes → Text
unfolding is_method is_tls detect_tls_protocol detect_ssh_protocol detect_numeric_protocol
    detect_advanced_protocol
detect_protocol [] = codes "TCP"
detect_protocol (c ∷ b) =
    if is_method c
    then codes "HTTP"
    else if c == 5
    then codes "SOCKS5"
    else if is_tls c
    then detect_tls_protocol (c ∷ b)
    else if c == 83
    then detect_ssh_protocol (c ∷ b)
    else if c == 50
    then detect_numeric_protocol (c ∷ b)
    else if (c == 16) || (c == 3)
    then codes "TCP"
    else detect_advanced_protocol (c ∷ b)

module _ {ℓ κ} {C : Type ℓ} {P : Type κ} where
  unfoldable pub register : Text → (C → P) → Registry C P → Registry C P
  unfolding insert
  register protocol factory r = record { factories = insert protocol factory r.factories }

  unfoldable pub unregister : Text → Registry C P → Registry C P
  unfolding remove
  unregister protocol r = record { factories = remove protocol r.factories }

  unfoldable pub register_defaults : Processors C P → Registry C P → Registry C P
  unfolding register
  register_defaults news r =
      register (codes "TCP") news.new_tcp
        (register (codes "SOCKS5") news.new_socks5 (register (codes "HTTP") news.new_http r))

  unfoldable pub new_registry : Processors C P → Registry C P
  unfolding register_defaults
  new_registry news = register_defaults news (record { factories = [] })

  -- `GetProcessor`.
  unfoldable pub get_processor : Processors C P → Registry C P → Text → C → P
  unfolding lookup
  get_processor news r protocol conn = elim (lookup protocol r.factories) [
    | none ↦ news.new_tcp conn
    | some factory ↦ factory conn
  ]

  -- What `HandleConnection` does with a connection: the processor that gets it.
  unfoldable pub processor_of : Processors C P → Registry C P → Bytes → C → P
  unfolding detect_protocol get_processor
  processor_of news r b conn = get_processor news r (detect_protocol b) conn
