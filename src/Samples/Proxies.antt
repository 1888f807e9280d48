-- ===== src/Samples/Proxies.antt =====
-- capture/processors/http on concrete hosts, credentials and streams, and internal/flow/http.go on a
-- concrete response.
use sniffy.Common.{
  ℕ, Bool, ◌==◌, ==_iff, if◌then◌else◌, ◌≡◌, ◌≢◌, ◌↔◌, ◌⊎◌, refl, inr, true, false, List, [], ◌∷◌,
  ◌++◌, none, some, arith, All, take, drop, map, length,
}
use sniffy.Common.Int.{pos}
use sniffy.Common.Bytes.{Text, codes, text_eq}
use sniffy.Common.Trim.{trim_space}
use sniffy.Common.Keys.{keys, is_distinct, is_absent, is_distinct_sound}
use sniffy.Common.Dict.{lookup}
use sniffy.Access.Scope.{should_decrypt, set_decrypt_scope}
use sniffy.Access.Named.{Lacks, IsPlain, with_port}
use sniffy.Access.Hosts.{AnyMeant, should_decrypt_iff}
use sniffy.Access.ProxyAuth.{
  ProxyAuthConfig, proxy_authorization_header, equal_fold, decode_string, first_value,
  check_proxy_authorization, strip_proxy_authorization,
}
use sniffy.Access.Credentials.{IsUnique, check_proxy_authorization_iff, IsOther, strip-hides}
use sniffy.Access.HeaderLines.{is_blank, parse_request_header_lines}
use sniffy.Access.Lines.{printed, IsLine, parse-printed}
use sniffy.Flow.{Response, continue_decision}
use sniffy.Flow.Copy.{original_encoded_body}
use sniffy.Flow.Order.{Fields, queue, reconcile_ordered_headers}
use sniffy.Flow.Order.Values.{values_of, reconcile-values}
use sniffy.Flow.Wire.{Wire, itoa, bodyless_response}
use sniffy.Flow.Reply.{content_length, content_encoding, faithful_reply, to_http_header, code_or_ok}
use sniffy.Flow.Framing.{IsHeader, encodings, sent_body, faithful_reply-framed}
use sniffy.Pipeline.{is_abort}
use sniffy.Stream.Relay.{
  Setting, Relay, Stamp, sse, more, new_scanners, pump_response_stream, shown,
}
use sniffy.Stream.Transparent.{Quiet, joined}
use sniffy.Stream.Pumping.{last_read, error_of, pump_response_stream_complete}
use sniffy.Samples.Flows.{sample_response}

abbrev same_text : Text → Text
same_text t = t

lacks : ℕ → Text → Bool
lacks b [] = true
lacks b (c ∷ s) = if c == b then false else lacks b s

lacks-Lacks : (b : ℕ) (s : Text) → lacks b s ≡ true → Lacks b s
unfolding lacks
lacks-Lacks b [] h = tt
lacks-Lacks b (c ∷ s) h =
    (λ e. ground (arith, ==_iff c b, h, e), lacks-Lacks b s (ground (arith, h)))

host-IsPlain : IsPlain (codes "www.a.test")
unfolding lacks
host-IsPlain =
    let t = codes "www.a.test" in
    (lacks-Lacks 58 t refl, lacks-Lacks 91 t refl, lacks-Lacks 93 t refl)

port-IsPlain : IsPlain (codes "443")
unfolding lacks
port-IsPlain =
    let t = codes "443" in (lacks-Lacks 58 t refl, lacks-Lacks 91 t refl, lacks-Lacks 93 t refl)

should_decrypt_iff_example :
    let host = same_text (codes "www.a.test") in
    let sc =
      set_decrypt_scope same_text true
        (codes "allow")
        (codes "*.a.test" ∷ [])
        (codes "b.test" ∷ []) in
    (should_decrypt same_text sc (codes "www.a.test" ++ 58 ∷ codes "443") ≡ true) ↔ (
      (true ≡ true)
      × (((codes "allow" ≡ codes "allow") × AnyMeant same_text host (codes "*.a.test" ∷ []))
          ⊎ ((codes "allow" ≡ codes "deny") × ¬ AnyMeant same_text host (codes "b.test" ∷ []))
          ⊎ ((codes "allow" ≢ codes "allow") × (codes "allow" ≢ codes "deny"))))
should_decrypt_iff_example =
    should_decrypt_iff same_text true (codes "allow") (codes "*.a.test" ∷ []) (codes "b.test" ∷ [])
      (codes "www.a.test" ++ 58 ∷ codes "443") (codes "www.a.test")
      (with_port (codes "443") host-IsPlain port-IsPlain)

abbrev alice : ProxyAuthConfig
alice = record { enabled = true; username = codes "alice"; password = codes "secret" }

abbrev basic : List (Text × List Text)
basic = (proxy_authorization_header, codes "Basic YWxpY2U6c2VjcmV0" ∷ []) ∷ []

alice-IsUnique : IsUnique same_text alice
alice-IsUnique = record { username = λ t e. e; password = λ t e. e }

check_proxy_authorization_iff_example :
    let raw = trim_space (first_value (lookup proxy_authorization_header basic)) in
    (check_proxy_authorization same_text (some alice) basic ≡ true) ↔ (
      (alice.enabled ≡ false)
      ⊎ ((alice.username ≢ [])
          × (alice.password ≢ [])
          × All (λ b. b ≢ 58) alice.username
          × (equal_fold (take 6 raw) (codes "Basic ") ≡ true)
          × (decode_string (trim_space (drop 6 raw))
              ≡ some (alice.username ++ 58 ∷ alice.password))))
check_proxy_authorization_iff_example =
    check_proxy_authorization_iff same_text alice alice-IsUnique basic

abbrev raw_lines : List (Text × Text)
raw_lines =
    (codes "Host", codes "a.test")
    ∷ (codes "proxy-authorization", codes "Basic YWxpY2U6c2VjcmV0")
    ∷ []

strip-hides_example :
    let stripped = strip_proxy_authorization basic (some raw_lines) in
    (kept : List (Text × Text)) × (stripped.1 ≡ some kept)
    × All (λ kv. IsOther kv.0) (reconcile_ordered_headers same_text kept stripped.0)
strip-hides_example = strip-hides same_text basic raw_lines (inr refl, tt)

abbrev fields : Fields
fields = (codes "Accept", codes "a" ∷ codes "b" ∷ []) ∷ (codes "X-New", codes "1" ∷ []) ∷ []

fields-Distinct : is_distinct (keys fields) ≡ true
unfolding is_distinct is_absent text_eq
fields-Distinct = refl

reconcile-values_example :
    values_of same_text
      (codes "Accept")
      (reconcile_ordered_headers same_text ((codes "Accept", codes "z") ∷ []) fields)
    ≡ queue (codes "Accept") fields
reconcile-values_example =
    reconcile-values same_text ((codes "Accept", codes "z") ∷ []) fields (codes "Accept")
      (is_distinct_sound (keys fields) fields-Distinct) (refl, (refl, tt))

abbrev wire : Wire
wire = record { canon = same_text; status_text = λ code. codes "Not Found" }

abbrev from_server : Response
from_server = record sample_response {
  header = some ((codes "Content-Type", codes "text/plain" ∷ []) ∷ []);
  raw_headers =
      (codes "Content-Type", codes "text/plain") ∷ (codes "Content-Length", codes "9") ∷ [];
  orig_status_line = codes "HTTP/1.0 200 OK";
}

from_server-IsHeader : IsHeader same_text (to_http_header from_server.header)
unfolding to_http_header
from_server-IsHeader = record { distinct = (tt, tt); canonical = (refl, tt) }

faithful_reply-framed_example :
    let reply = faithful_reply wire from_server (codes "GET") in
    (values_of wire.canon content_length reply.lines ≡ itoa (pos (length reply.body)) ∷ [])
    × (values_of wire.canon content_encoding reply.lines
        ≡ encodings from_server (original_encoded_body from_server from_server.body))
    × (reply.body ≡ sent_body from_server (original_encoded_body from_server from_server.body))
unfolding bodyless_response code_or_ok text_eq
faithful_reply-framed_example =
    faithful_reply-framed wire from_server refl refl (codes "GET") from_server-IsHeader refl

abbrev no_stamp : Stamp
no_stamp = record { shown_id = []; shown_at = 0; id = []; at = 0 }

abbrev setting : Setting
setting = record {
  pipeline = none;
  stamps = λ n. no_stamp;
  url = codes "http://a.test/events";
  accepts = λ chunks chunk. true;
}

setting-Quiet : Quiet setting
unfolding shown is_abort continue_decision
setting-Quiet = record { accepting = λ cs c. refl; unchanged = λ m. refl; goes_on = λ m. refl }

abbrev nothing_sent : Relay
nothing_sent = record { rec = none; emitted = 0; chunks = [] }

pump_response_stream_complete_example :
    (t : Relay) × (pump_response_stream setting sse
        (map (λ b. (b, more)) (codes "data: 1\n" ∷ codes "\ndata: 2" ∷ [])
          ++ (codes "\n", last_read true) ∷ [])
        (new_scanners, (nothing_sent, none))
      ≡ some (t, error_of true))
    × (joined t.chunks ≡ joined (codes "data: 1\n" ∷ codes "\ndata: 2" ∷ []) ++ codes "\n")
pump_response_stream_complete_example =
    pump_response_stream_complete setting setting-Quiet sse true
      (codes "data: 1\n" ∷ codes "\ndata: 2" ∷ []) (codes "\n") [] nothing_sent refl

abbrev shown_lines : List (Text × Text)
shown_lines = (codes "Host", codes "a") ∷ (codes "X", []) ∷ []

shown_lines-IsLine : All IsLine shown_lines
unfolding is_blank
shown_lines-IsLine = (
  record {
    one_line = (
      omega arith,
      (omega arith, (omega arith, (omega arith, (omega arith, (omega arith, (omega arith, tt)))))),
    );
    named = refl;
    no_colon = (omega arith, (omega arith, (omega arith, (omega arith, tt))));
    name_visible = refl;
    value_visible = refl;
  },
  (
    record {
      one_line = (omega arith, (omega arith, (omega arith, tt)));
      named = refl;
      no_colon = (omega arith, tt);
      name_visible = refl;
      value_visible = tt;
    },
    tt,
  ),
)

parse-printed_example :
    parse_request_header_lines ((codes "GET /" ++ 13 ∷ []) ++ 10 ∷ printed shown_lines)
    ≡ shown_lines
parse-printed_example =
    parse-printed (codes "GET /") shown_lines refl
      (omega arith, (omega arith, (omega arith, (omega arith, (omega arith, tt)))))
      shown_lines-IsLine
