-- ===== src/Service/Refines.antt =====
-- internal/service/sessions.go: every method of a store does what it does on the window.
use sniffy.Common.{
  ◌+◌, ◌-◌, ◌≤◌, ◌≡◌, refl, inl, inr, [], ◌∷◌, ◌++◌, none, some, arith, length, drop, Bool-cases,
  Option-cases, length-append, append-nil, drop-append_le, map-drop,
}
use mathlib.Core.List.{map-append}
use sniffy.Common.Int.{ℤ, is_pos, pos_part}
use sniffy.Common.Bytes.{Text}
use sniffy.Common.Dict.{lookup}
use sniffy.Common.Keys.{keys, insert_absent, keys-insert_known}
use sniffy.Service.Window.{
  Window, newest, store_of, stored, IsWindow, put_window, set_cap_window, delete_window,
}
use sniffy.Service.Trimming.{keys-remove_known, lookup_dropped, take-append_le, trim-Cut}
use sniffy.Service.Sessions.{trim_locked, make_room, put, set_cap, delete}

module _ {V : Type 0} where
  put_new :
      (w : Window V) (id : Text) (v : V)
      → IsWindow w
      → lookup id w.entries ≡ none
      → put (store_of w) id v ≡ stored (put_window w id v none)
  unfolding put put_window
  put_new w id v i e =
      let m = w.entries in
      let n = length m + 1 - w.cap in
      let l : length (m ++ (id, v) ∷ []) ≡ length m + 1 = length-append m ((id, v) ∷ []) in
      let le : n ≤ length m = omega (arith, i.room) in
      let t = trim-Cut w.cap n m (id ∷ []) i.distinct i.room refl in
      let a = insert_absent id v (drop n m) (lookup_dropped id n m e) in
      let b = drop-append_le n m ((id, v) ∷ []) le in
      let c = take-append_le n m ((id, v) ∷ []) le in
      let k = map-append (λ (e : Text × V). e.0) m ((id, v) ∷ []) in
      let d = map-drop (λ (e : Text × V). e.0) n (m ++ (id, v) ∷ []) in
      unfold make_room trim_locked newest in rw (e, t, a, l, ← b, c, d, k)

  put_known :
      (w : Window V) (id : Text) (v old : V)
      → lookup id w.entries ≡ some old
      → put (store_of w) id v ≡ stored (put_window w id v (some old))
  unfolding put put_window
  put_known w id v old e = unfold make_room in rw (e, keys-insert_known id v old w.entries e)

  pub put-stored :
      (w : Window V) (id : Text) (v : V)
      → IsWindow w
      → put (store_of w) id v ≡ stored (put_window w id v (lookup id w.entries))
  put-stored w id v i = elim (Option-cases (lookup id w.entries)) [
    | inl e ↦ rw e (put_new w id v i e)
    | inr (old, e) ↦ rw e (put_known w id v old e)
  ]

  pub set_cap-stored :
      (w : Window V) (n : ℤ) → IsWindow w → set_cap (store_of w) n ≡ stored (set_cap_window w n)
  unfolding set_cap set_cap_window trim_locked newest
  set_cap-stored w n i =
      let m = w.entries in
      let k = length m - pos_part n in
      let t = trim-Cut (pos_part n) k m [] i.distinct (omega arith) (omega arith) in
      elim (Bool-cases (is_pos n)) [
        | inl e ↦ rw (e, ← append-nil (keys m), t, map-drop (λ (e : Text × V). e.0) k m, append-nil)
        | inr e ↦ rw e
      ]

  pub delete-stored :
      (w : Window V) (id : Text)
      → IsWindow w
      → delete (store_of w) id ≡ stored (delete_window w id (lookup id w.entries))
  unfolding delete delete_window lookup
  delete-stored w id i = elim (Option-cases (lookup id w.entries)) [
    | inl e ↦ rw e
    | inr (old, e) ↦ rw (e, keys-remove_known id old w.entries i.distinct e)
  ]
