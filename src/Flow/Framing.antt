-- ===== src/Flow/Framing.antt =====
-- internal/flow/http.go: the lengths and encodings that a response announces are those of its body.
use sniffy.Common.{
  ◌≡◌, ◌≢◌, refl, ◌∙◌, false, List, [], ◌∷◌, Option, none, some, length, All, All-weaken,
}
use sniffy.Common.Int.{pos}
use sniffy.Common.Bytes.{Text, Bytes, text_eq, text_eq_refl}
use sniffy.Common.Dict.{insert, remove, All-insert, All-remove}
use sniffy.Common.Keys.{keys, Distinct, Distinct-remove, Distinct-insert}
use sniffy.Flow.Types.{Response}
use sniffy.Flow.Copy.{original_encoded_body}
use sniffy.Flow.Codec.{delete_all, hop_by_hop_headers, strip_hop_by_hop}
use sniffy.Flow.Order.{Fields, queue}
use sniffy.Flow.Order.Values.{values_of, reconcile-values, queue-insert, queue-remove}
use sniffy.Flow.Wire.{Wire, itoa, bodyless_response}
use sniffy.Flow.Reply.{
  content_length, content_encoding, to_http_header, code_or_ok, encoded_or_plain, with_length,
  faithful_reply,
}

module _ (canon : Text → Text) where
  -- A map of headers: canonical keys, each once.
  pub record IsHeader (vals : Fields) : Type 0 where
    pub distinct : Distinct (keys vals)
    pub canonical : All (λ e. canon e.0 ≡ e.0) vals

  remove-IsHeader : (k : Text) (vals : Fields) → IsHeader vals → IsHeader (remove k vals)
  remove-IsHeader k vals h = record {
    distinct = Distinct-remove k vals h.distinct;
    canonical =
        All-weaken (λ (e : Text × List Text). (canon e.0 ≡ e.0) × (e.0 ≢ k)) (λ e. canon e.0 ≡ e.0)
          (λ _ a. a.0) (remove k vals) (All-remove (λ e. canon e.0 ≡ e.0) k vals h.canonical);
  }

  insert-IsHeader :
      (k : Text) (vs : List Text) (vals : Fields)
      → canon k ≡ k
      → IsHeader vals
      → IsHeader (insert k vs vals)
  insert-IsHeader k vs vals e h = record {
    distinct = Distinct-insert k vs vals h.distinct;
    canonical = All-insert (λ e. canon e.0 ≡ e.0) k vs vals e h.canonical;
  }

  delete_all-IsHeader :
      (ks : List Text) (vals : Fields) → IsHeader vals → IsHeader (delete_all canon ks vals)
  unfolding delete_all
  delete_all-IsHeader [] vals h = h
  delete_all-IsHeader (k ∷ ks) vals h =
      delete_all-IsHeader ks (remove (canon k) vals) (remove-IsHeader (canon k) vals h)

-- The encodings that a body is announced with.
abbrev pub encodings : Response → Option Bytes → List Text
encodings r none = []
encodings r (some enc) = r.orig_encoding ∷ []

abbrev pub sent_body : Response → Option Bytes → Bytes
sent_body r none = r.body
sent_body r (some enc) = enc

module _ (w : Wire) (r : Response) (length_canonical : w.canon content_length ≡ content_length)
    (encoding_canonical : w.canon content_encoding ≡ content_encoding) where
  encoded_or_plain-IsHeader :
      (vals : Fields) (o : Option Bytes)
      → IsHeader w.canon vals
      → IsHeader w.canon (encoded_or_plain r vals o).1
        × (queue content_encoding (encoded_or_plain r vals o).1 ≡ encodings r o)
        × ((encoded_or_plain r vals o).0 ≡ sent_body r o)
  unfolding encoded_or_plain
  encoded_or_plain-IsHeader vals none h = (
    remove-IsHeader w.canon content_encoding vals h,
    queue-remove content_encoding content_encoding vals ∙ rw (text_eq_refl content_encoding),
    refl,
  )
  encoded_or_plain-IsHeader vals (some enc) h = (
    insert-IsHeader w.canon content_encoding (r.orig_encoding ∷ []) vals encoding_canonical h,
    queue-insert content_encoding content_encoding (r.orig_encoding ∷ []) vals
        ∙ rw (text_eq_refl content_encoding),
    refl,
  )

  with_length-IsHeader :
      (body : Bytes) (vals : Fields)
      → IsHeader w.canon vals
      → let out = with_length w r false body vals in
        IsHeader w.canon out
        × (queue content_length out ≡ itoa (pos (length body)) ∷ [])
        × (queue content_encoding out ≡ queue content_encoding vals)
  unfolding with_length
  with_length-IsHeader body vals h =
      let l = itoa (pos (length body)) ∷ [] in
      let other : text_eq content_length content_encoding ≡ false = unfold text_eq in refl in
      (
        insert-IsHeader w.canon content_length l vals length_canonical h,
        queue-insert content_length content_length l vals ∙ rw (text_eq_refl content_length),
        queue-insert content_encoding content_length l vals ∙ rw other,
      )

  -- Where the response may have a body, the lines that are written announce one length, which is
  -- that of the written body; and the body is either the recorded wire bytes, under their encoding,
  -- or the plain body, under none. The headers of the response have canonical keys, each once.
  pub faithful_reply-framed :
      (method : Text)
      → IsHeader w.canon (to_http_header r.header)
      → bodyless_response (code_or_ok r.status) method ≡ false
      → let reply = faithful_reply w r method in
        (values_of w.canon content_length reply.lines ≡ itoa (pos (length reply.body)) ∷ [])
        × (values_of w.canon content_encoding reply.lines
            ≡ encodings r (original_encoded_body r r.body))
        × (reply.body ≡ sent_body r (original_encoded_body r r.body))
  unfolding faithful_reply
  faithful_reply-framed method h b =
      let vals = strip_hop_by_hop w.canon (to_http_header r.header) in
      let o = original_encoded_body r r.body in
      let out = encoded_or_plain r vals o in
      let s : IsHeader w.canon vals =
        unfold strip_hop_by_hop in
        delete_all-IsHeader w.canon hop_by_hop_headers (to_http_header r.header) h in
      let (e, enc, body) = encoded_or_plain-IsHeader vals o s in
      let (f, len, kept) = with_length-IsHeader out.0 out.1 e in
      rw b (
        reconcile-values w.canon r.raw_headers (with_length w r false out.0 out.1) content_length
              f.distinct f.canonical
            ∙ len,
        reconcile-values w.canon r.raw_headers (with_length w r false out.0 out.1) content_encoding
              f.distinct f.canonical
            ∙ kept
            ∙ enc,
        body,
      )
