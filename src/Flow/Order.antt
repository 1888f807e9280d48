-- ===== src/Flow/Order.antt =====
-- internal/flow/order.go: `reconcileOrderedHeaders`. `textproto.CanonicalMIMEHeaderKey` is the
-- argument `canon`. The queues of the values still to be written are a function of the name; Go
-- ranges over the map in any order, and the names are sorted afterwards.
pub mod Replay
pub mod Names
pub mod Values
use sniffy.Common.{
  ℕ, ◌≡◌, refl, ap, sym, ◌∙◌, inl, inr, Bool, true, false, not, List, [], ◌∷◌, ◌++◌, append_assoc,
  append-nil, Option, none, some, map, arith, ltb, ◌==◌, ◌||◌, ◌&&◌, is_nil, select, if◌then◌else◌,
  if_elim, Bool-cases,
}
use sniffy.Common.Bytes.{Text, text_eq, text_eq_iff, text_eq_refl}
use sniffy.Common.Ordered.{text_less}
use sniffy.Common.Dict.{lookup, remove}

abbrev pub Fields : Type 0
Fields = List (Text × List Text)

abbrev pub Queues : Type 0
Queues = Text → List Text

queue_or : Option (List Text) → List Text
queue_or none = []
queue_or (some q) = q

unfoldable pub queue : Text → Fields → List Text
unfolding queue_or
queue k m = queue_or (lookup k m)

abbrev pub put : Text → List Text → Queues → Queues
put k q rem j = if text_eq k j then q else rem j

-- The loop along the raw headers: what is written, and what remains.
unfoldable pub emit : (Text → Text) → List (Text × Text) → Queues → List (Text × Text) × Queues
emit canon [] rem = ([], rem)
emit canon (kv ∷ raw) rem = elim (rem (canon kv.0)) [
  | [] ↦ emit canon raw rem
  | v ∷ q ↦ let rest = emit canon raw (put (canon kv.0) q rem) in ((kv.0, v) ∷ rest.0, rest.1)
]

-- `sort.Strings`.
unfoldable pub insert_text : Text → List Text → List Text
unfolding text_less
insert_text s [] = s ∷ []
insert_text s (t ∷ ts) = if text_less t s then t ∷ insert_text s ts else s ∷ t ∷ ts

unfoldable pub sort_texts : List Text → List Text
unfolding insert_text
sort_texts [] = []
sort_texts (s ∷ ss) = insert_text s (sort_texts ss)

-- The new headers, at the end.
unfoldable pub appended : Queues → List Text → List (Text × Text)
appended rem [] = []
appended rem (k ∷ ks) = map (λ v. (k, v)) (rem k) ++ appended rem ks

unfoldable pub reconcile_ordered_headers :
    (Text → Text) → List (Text × Text) → Fields → List (Text × Text)
reconcile_ordered_headers canon raw vals =
    let s = emit canon raw (λ k. queue k vals) in
    let leftover = select (λ k. not (is_nil (s.1 k))) (map (λ e. e.0) vals) in
    s.0 ++ appended s.1 (sort_texts leftover)

-- One more value under a name, and the map that net/http makes of the raw headers of a request.
unfoldable pub add_value : Text → Text → Fields → Fields
add_value k v [] = (k, v ∷ []) ∷ []
add_value k v ((j, q) ∷ m) = if text_eq j k then (j, q ++ v ∷ []) ∷ m else (j, q) ∷ add_value k v m

unfoldable pub collect : (Text → Text) → List (Text × Text) → Fields → Fields
unfolding add_value
collect canon [] m = m
collect canon (kv ∷ raw) m = collect canon raw (add_value (canon kv.0) kv.1 m)
