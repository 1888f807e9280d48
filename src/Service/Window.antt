-- ===== src/Service/Window.antt =====
-- internal/service/sessions.go: what a store promises. A window is the entries in the order of their
-- arrival, the newest `cap` of them; a store is one way to hold it.
use sniffy.Common.{
  ℕ, ◌-◌, ◌≤◌, List, [], ◌∷◌, ◌++◌, map, Option, none, some, length, take, drop, if◌then◌else◌,
}
use sniffy.Common.Int.{ℤ, is_pos, pos_part}
use sniffy.Common.Bytes.{Text}
use sniffy.Common.Dict.{lookup, insert, remove}
use sniffy.Common.Keys.{keys, Distinct}
use sniffy.Service.Sessions.{
  Change, put_entry, new_cap, delete_entry, clear_all, Store, capacity_or,
}

pub record Window (V : Type 0) : Type 0 where
  pub entries : List (Text × V)
  pub cap : ℕ

module _ {V : Type 0} where
  -- The oldest entries above the capacity, and the others.
  unfoldable pub newest : List (Text × V) → ℕ → Window V × List V
  newest m cap =
      let excess = length m - cap in
      (record { entries = drop excess m; cap = cap }, map (λ e. e.1) (take excess m))

  -- The store that holds a window.
  abbrev pub store_of : Window V → Store V
  store_of w = record { order = keys w.entries; items = w.entries; cap = w.cap }

  -- A result of a method on a window, as one on the store.
  abbrev pub stored : Window V × List V → Store V × List V
  stored out = (store_of out.0, out.1)

  -- IDs are there once, and not more than the capacity, which is 1 or more.
  pub record IsWindow (w : Window V) : Type 0 where
    pub distinct : Distinct (keys w.entries)
    pub room : 1 ≤ w.cap
    pub bounded : length w.entries ≤ w.cap

  -- `put`: a known ID keeps its place and gets the new entry; another comes last, and the oldest go.
  unfoldable pub put_window : Window V → Text → V → Option V → Window V × List V
  unfolding newest
  put_window w id v none = newest (w.entries ++ (id, v) ∷ []) w.cap
  put_window w id v (some old) = (record w { entries = insert id v w.entries }, [])

  unfoldable pub set_cap_window : Window V → ℤ → Window V × List V
  unfolding newest
  set_cap_window w n = if is_pos n then newest w.entries (pos_part n) else (w, [])

  unfoldable pub delete_window : Window V → Text → Option V → Window V × List V
  delete_window w id none = (w, [])
  delete_window w id (some v) = (record w { entries = remove id w.entries }, v ∷ [])

  unfoldable pub clear_window : Window V → Window V × List V
  clear_window w = (record w { entries = [] }, map (λ e. e.1) w.entries)

  unfoldable pub change_window : Window V → Change V → Window V × List V
  unfolding put_window set_cap_window delete_window clear_window
  change_window w (put_entry id v) = put_window w id v (lookup id w.entries)
  change_window w (new_cap n) = set_cap_window w n
  change_window w (delete_entry id) = delete_window w id (lookup id w.entries)
  change_window w clear_all = clear_window w

  unfoldable pub change_windows : List (Change V) → Window V → Window V × List V
  unfolding change_window
  change_windows [] w = (w, [])
  change_windows (c ∷ cs) w =
      let rest = change_windows cs (change_window w c).0 in
      (rest.0, (change_window w c).1 ++ rest.1)

  unfoldable pub new_window : ℕ → ℤ → Window V
  unfolding capacity_or
  new_window default capacity = record { entries = []; cap = capacity_or default capacity }
