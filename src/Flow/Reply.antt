-- ===== src/Flow/Reply.antt =====
-- internal/flow/http.go: the responses that go back to the client. Go's map of headers has every key
-- once, in canonical form.
use sniffy.Common.{
  ℕ, Bool, not, ◌&&◌, List, [], ◌∷◌, ◌++◌, Option, none, some, is_nil, length, if◌then◌else◌,
}
use sniffy.Common.Int.{ℤ, pos}
use sniffy.Common.Sort.{eq_ℤ}
use sniffy.Common.Bytes.{Text, Bytes, codes}
use sniffy.Common.Trim.{trim_space, cut_prefix}
use sniffy.Common.Dict.{insert, remove}
use sniffy.Flow.Types.{Response, Headers}
use sniffy.Flow.Copy.{original_encoded_body}
use sniffy.Flow.Order.{Fields, reconcile_ordered_headers}
use sniffy.Flow.Codec.{strip_hop_by_hop}
use sniffy.Flow.Wire.{Wire, itoa, bodyless_response, raw_header_value, proto_of, status_code_of}

abbrev pub content_length : Text
content_length = codes "Content-Length"

abbrev pub content_encoding : Text
content_encoding = codes "Content-Encoding"

-- `ToHTTPHeader`.
unfoldable pub to_http_header : Headers → Fields
to_http_header none = []
to_http_header (some m) = m

unfoldable pub code_or_ok : ℤ → ℤ
code_or_ok code = if eq_ℤ code (pos 0) then pos 200 else code

-- `strings.TrimPrefix`.
unfoldable pub trim_prefix : Text → Text → Text
trim_prefix s p = elim (cut_prefix s p) [ none ↦ s | some r ↦ r ]

unfoldable pub or_default : Text → Text → Text
or_default [] default = default
or_default (c ∷ s) default = c ∷ s

-- `responseStatusLine`.
unfoldable pub response_status_line : Wire → Response → ℤ → Text
unfolding status_code_of proto_of trim_prefix trim_space or_default itoa
response_status_line w r code =
    let proto = or_default (proto_of r.orig_status_line) (codes "HTTP/1.1") in
    let reason =
      or_default (trim_space (trim_prefix r.status_text (itoa code))) (w.status_text code) in
    if not (is_nil r.orig_status_line) && eq_ℤ (status_code_of r.orig_status_line) code
    then r.orig_status_line
    else proto ++ (codes " " ++ (itoa code ++ (codes " " ++ reason)))

-- The body that goes out, and the headers with its encoding.
unfoldable pub encoded_or_plain : Response → Fields → Option Bytes → Bytes × Fields
encoded_or_plain r vals none = (r.body, remove content_encoding vals)
encoded_or_plain r vals (some enc) = (enc, insert content_encoding (r.orig_encoding ∷ []) vals)

-- The length that is announced: the server's own where no body is written.
unfoldable pub with_length : Wire → Response → Bool → Bytes → Fields → Fields
unfolding raw_header_value itoa
with_length w r bodyless body vals =
    let cl = raw_header_value w.canon r.raw_headers content_length in
    if bodyless
    then if is_nil cl then vals else insert content_length (cl ∷ []) vals
    else insert content_length (itoa (pos (length body)) ∷ []) vals

-- A response on the wire: the status line, the header lines and the body.
pub record Reply : Type 0 where
  pub status_line : Text
  pub lines : List (Text × Text)
  pub body : Bytes

-- What `writeFaithfulResponse` writes.
unfoldable pub faithful_reply : Wire → Response → Text → Reply
unfolding original_encoded_body encoded_or_plain to_http_header code_or_ok bodyless_response
    with_length reconcile_ordered_headers response_status_line strip_hop_by_hop
faithful_reply w r method =
    let vals = strip_hop_by_hop w.canon (to_http_header r.header) in
    let out = encoded_or_plain r vals (original_encoded_body r r.body) in
    let code = code_or_ok r.status in
    let bodyless = bodyless_response code method in
    record {
      status_line = response_status_line w r code;
      lines =
          reconcile_ordered_headers w.canon r.raw_headers (with_length w r bodyless out.0 out.1);
      body = if bodyless then [] else out.0;
    }

abbrev crlf : Text
crlf = 13 ∷ 10 ∷ []

unfoldable pub header_bytes : List (Text × Text) → Bytes
header_bytes [] = crlf
header_bytes (kv ∷ lines) = kv.0 ++ (codes ": " ++ (kv.1 ++ (crlf ++ header_bytes lines)))

-- `writeFaithfulResponse` into a writer that takes all.
unfoldable pub write_faithful_response : Wire → Response → Text → Bytes
unfolding faithful_reply header_bytes
write_faithful_response w r method =
    let reply = faithful_reply w r method in
    reply.status_line ++ (crlf ++ (header_bytes reply.lines ++ reply.body))

-- `http.Response` as `BuildHTTPResponse` fills it in.
pub record HttpResponse : Type 0 where
  pub status : Text
  pub status_code : ℤ
  pub header : Fields
  pub body : Bytes
  pub content_length : ℕ

-- The response, or an empty one with status 200.
unfoldable pub response_or_ok : Option Response → Response
response_or_ok (some r) = r
response_or_ok none = record {
  status = pos 200;
  status_text = [];
  header = some [];
  body = [];
  trailer = none;
  raw_headers = [];
  orig_status_line = [];
  orig_encoded_body = none;
  orig_decoded_body = [];
  orig_encoding = [];
  body_file = [];
  body_size = pos 0;
}

unfoldable pub build_http_response : Wire → Option Response → HttpResponse
unfolding response_or_ok to_http_header code_or_ok strip_hop_by_hop or_default itoa
build_http_response w o =
    let r = response_or_ok o in
    let header =
      insert content_length (itoa (pos (length r.body)) ∷ [])
        (remove content_encoding (strip_hop_by_hop w.canon (to_http_header r.header))) in
    let code = code_or_ok r.status in
    record {
      status = or_default r.status_text (w.status_text code);
      status_code = code;
      header = header;
      body = r.body;
      content_length = length r.body;
    }
