-- ===== src/Flow/Codec.antt =====
-- internal/flow/codec.go: decoding of bodies and previews, and headers that hold for one hop. The
-- decoders of gzip, deflate, zstd and brotli are arguments, and so are the case mapping and the test
-- for UTF-8.
use sniffy.Common.{
  ℕ, suc, ◌*◌, Bool, true, false, not, ◌&&◌, ◌||◌, List, [], ◌∷◌, Option, none, some, ltb, ◌==◌,
  take, length, is_nil, if◌then◌else◌,
}
use sniffy.Common.Int.{ℤ, is_pos, pos_part}
use sniffy.Common.Bytes.{Text, Bytes, codes, contains}
use sniffy.Common.Trim.{trim_space}
use sniffy.Common.Dict.{remove}

-- The decoders give nothing for an error.
pub record Codecs : Type 0 where
  pub gunzip : Bytes → Option Bytes
  pub inflate : Bytes → Option Bytes
  pub unzstd : Bytes → Option Bytes
  pub unbrotli : Bytes → Option Bytes
  pub lower : Text → Text
  pub valid_utf8 : Bytes → Bool

-- `gunzip` and the others: an error gives the body back.
unfoldable pub or_body : Bytes → Option Bytes → Bytes × Bool
or_body body none = (body, false)
or_body body (some decoded) = (decoded, true)

unfoldable pub decode_as : Codecs → Bytes → Text → Bytes × Bool
unfolding or_body
decode_as c body enc =
    if contains enc (codes "gzip")
    then or_body body (c.gunzip body)
    else if contains enc (codes "deflate")
    then or_body body (c.inflate body)
    else if contains enc (codes "zstd")
    then or_body body (c.unzstd body)
    else if contains enc (codes "br")
    then or_body body (c.unbrotli body)
    else (body, false)

-- `DecodeBody`.
unfoldable pub decode_body : Codecs → Bytes → Text → Bytes × Bool
unfolding decode_as trim_space
decode_body c body encoding =
    if is_nil body || is_nil encoding
    then (body, false)
    else decode_as c body (c.lower (trim_space encoding))

unfoldable pub is_control : ℕ → Bool
is_control b = ltb b 32 && not ((b == 9) || ((b == 10) || (b == 13)))

unfoldable pub non_printable : Bytes → ℕ
unfolding is_control
non_printable [] = 0
non_printable (b ∷ s) = if is_control b then suc (non_printable s) else non_printable s

-- `IsBinary`. The quotient of two numbers up to 512 is above the float64 nearest to 0.3 exactly if
-- ten times the one is above three times the other.
unfoldable pub is_binary : Bytes → Bool
unfolding non_printable
is_binary s =
    let head = take 512 s in
    if is_nil s then false else ltb (3 * length head) (10 * non_printable head)

unfoldable pub body_preview : Codecs → Bytes → ℤ → Text
unfolding is_binary
body_preview c body max_len =
    if is_nil body
    then []
    else if is_binary body || not (c.valid_utf8 body)
    then []
    else if is_pos max_len && ltb (pos_part max_len) (length body)
    then take (pos_part max_len) body
    else body

unfoldable pub hop_by_hop_headers : List Text
hop_by_hop_headers =
    codes "Connection"
    ∷ codes "Proxy-Connection"
    ∷ codes "Keep-Alive"
    ∷ codes "Proxy-Authenticate"
    ∷ codes "Proxy-Authorization"
    ∷ codes "TE"
    ∷ codes "Trailer"
    ∷ codes "Transfer-Encoding"
    ∷ codes "Upgrade"
    ∷ []

-- `h.Del` of each name, in canonical form.
unfoldable pub delete_all :
    (Text → Text) → List Text → List (Text × List Text) → List (Text × List Text)
delete_all canon [] h = h
delete_all canon (k ∷ ks) h = delete_all canon ks (remove (canon k) h)

unfoldable pub strip_hop_by_hop : (Text → Text) → List (Text × List Text) → List (Text × List Text)
unfolding delete_all hop_by_hop_headers
strip_hop_by_hop canon h = delete_all canon hop_by_hop_headers h

unfoldable pub has_token : Codecs → List Text → Text → Bool
has_token c [] token = false
has_token c (v ∷ vs) token = if contains (c.lower v) token then true else has_token c vs token
