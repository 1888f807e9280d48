-- ===== src/Service/Kept.antt =====
-- internal/service/sessions.go: a store is the window of its entries after any calls.
use sniffy.Common.{
  ℕ, ◌-◌, ◌≤◌, ◌≡◌, refl, inl, inr, List, [], ◌∷◌, ◌++◌, some, arith, length, if_elim, Option-cases,
  length-drop, length-map, ap,
}
use mathlib.Core.List.{map-append}
use sniffy.Common.Int.{ℤ, is_pos, pos_part, is_pos-le}
use sniffy.Common.Bytes.{Text}
use sniffy.Common.Dict.{lookup, insert, length-remove-le}
use sniffy.Common.Keys.{
  keys, Distinct, Distinct-snoc, Distinct-remove, keys-insert_known, lookup_absent,
}
use sniffy.Service.Sessions.{
  Change, put_entry, new_cap, delete_entry, clear_all, change, change_all, new_store, capacity_or,
}
use sniffy.Service.Window.{
  Window, newest, store_of, stored, IsWindow, put_window, set_cap_window, delete_window,
  clear_window, change_window, change_windows, new_window,
}
use sniffy.Service.Trimming.{Distinct-drop}
use sniffy.Service.Refines.{put-stored, set_cap-stored, delete-stored}

capacity_or-le : (default : ℕ) (c : ℤ) → 1 ≤ default → 1 ≤ capacity_or default c
unfolding capacity_or
capacity_or-le default c h = if_elim (λ n. 1 ≤ n) (is_pos c) _ _ (λ e. is_pos-le c e) (λ _. h)

module _ {V : Type 0} where
  newest-IsWindow :
      (m : List (Text × V)) (cap : ℕ) → Distinct (keys m) → 1 ≤ cap → IsWindow (newest m cap).0
  unfolding newest
  newest-IsWindow m cap d h = record {
    distinct = Distinct-drop (length m - cap) m d;
    room = h;
    bounded = omega (arith, length-drop (length m - cap) m);
  }

  length-insert_known :
      (k : Text) (v old : V) (m : List (Text × V))
      → lookup k m ≡ some old
      → length (insert k v m) ≡ length m
  length-insert_known k v old m e =
      let a = length-map (λ (e : Text × V). e.0) (insert k v m) in
      let b = length-map (λ (e : Text × V). e.0) m in
      let c = ap length (keys-insert_known k v old m e) in omega (arith, a, b, c)

  put_window-IsWindow :
      (w : Window V) (id : Text) (v : V)
      → IsWindow w
      → IsWindow (put_window w id v (lookup id w.entries)).0
  unfolding put_window
  put_window-IsWindow w id v i = elim (Option-cases (lookup id w.entries)) [
    | inl e ↦
        let d = Distinct-snoc id (keys w.entries) (lookup_absent id w.entries e) i.distinct in
        let k = map-append (λ (e : Text × V). e.0) w.entries ((id, v) ∷ []) in
        rw e (newest-IsWindow (w.entries ++ (id, v) ∷ []) w.cap (rw k d) i.room)
    | inr (old, e) ↦ rw e (record {
      distinct = rw (keys-insert_known id v old w.entries e) i.distinct;
      room = i.room;
      bounded = omega (arith, length-insert_known id v old w.entries e, i.bounded);
    })
  ]

  change_window-IsWindow :
      (w : Window V) (c : Change V) → IsWindow w → IsWindow (change_window w c).0
  unfolding change_window
  change_window-IsWindow w (put_entry id v) i = put_window-IsWindow w id v i
  change_window-IsWindow w (new_cap n) i =
      unfold set_cap_window in
      if_elim (λ (o : Window V × List V). IsWindow o.0) (is_pos n) _ _
        (λ h. newest-IsWindow w.entries (pos_part n) i.distinct (is_pos-le n h)) (λ _. i)
  change_window-IsWindow w (delete_entry id) i = elim (Option-cases (lookup id w.entries)) [
    | inl e ↦ unfold delete_window in rw e i
    | inr (old, e) ↦
        unfold delete_window in
        rw e (record {
          distinct = Distinct-remove id w.entries i.distinct;
          room = i.room;
          bounded = omega (arith, i.bounded, length-remove-le id w.entries);
        })
  ]
  change_window-IsWindow w clear_all i =
      unfold clear_window in record { distinct = tt; room = i.room; bounded = omega arith }

  change-stored :
      (w : Window V) (c : Change V)
      → IsWindow w
      → change (store_of w) c ≡ stored (change_window w c)
  unfolding change change_window
  change-stored w (put_entry id v) i = put-stored w id v i
  change-stored w (new_cap n) i = set_cap-stored w n i
  change-stored w (delete_entry id) i = delete-stored w id i
  change-stored w clear_all i = unfold clear_window in refl

  change_all-stored :
      (cs : List (Change V)) (w : Window V)
      → IsWindow w
      → change_all cs (store_of w) ≡ stored (change_windows cs w)
  unfolding change_all change_windows
  change_all-stored [] w i = refl
  change_all-stored (c ∷ cs) w i = rw (
    change-stored w c i,
    change_all-stored cs (change_window w c).0 (change_window-IsWindow w c i),
  )

  change_windows-IsWindow :
      (cs : List (Change V)) (w : Window V) → IsWindow w → IsWindow (change_windows cs w).0
  unfolding change_windows
  change_windows-IsWindow [] w i = i
  change_windows-IsWindow (c ∷ cs) w i =
      change_windows-IsWindow cs (change_window w c).0 (change_window-IsWindow w c i)

  -- A store that is new with a default capacity of at least 1 behaves under any calls, in its state
  -- and in the entries it gives up, as the list of the newest entries up to the capacity, which
  -- holds no ID twice and no more than the capacity.
  pub change_all-refines :
      (default : ℕ) (capacity : ℤ) (cs : List (Change V))
      → 1 ≤ default
      → (change_all cs (new_store default capacity)
          ≡ stored (change_windows cs (new_window default capacity)))
        × IsWindow (change_windows cs (new_window {V = V} default capacity)).0
  change_all-refines default capacity cs h =
      let i : IsWindow (new_window {V = V} default capacity) =
        unfold new_window in
        record { distinct = tt; room = capacity_or-le default capacity h; bounded = omega arith } in
      let e : new_store {V = V} default capacity ≡ store_of (new_window default capacity) =
        unfold new_store new_window in refl in
      (
        rw e (change_all-stored cs (new_window default capacity) i),
        change_windows-IsWindow cs (new_window default capacity) i,
      )
