-- ===== src/Service/Sessions.antt =====
-- internal/service/sessions.go: sessionStore, wsStore and streamStore, for any kind of entry with an
-- ID. Locks are left out: every method holds its own from the first access to the last. `cap` is
-- never 0 or less: see `new_store`. The callback for evicted entries runs after the lock is given
-- back: a method gives the list of its calls.
use sniffy.Common.{
  ℕ, zero, suc, ◌-◌, List, [], ◌∷◌, ◌++◌, map, Option, none, some, ltb, leb, length, if◌then◌else◌,
}
use sniffy.Common.Int.{ℤ, is_pos, pos_part}
use sniffy.Common.Bytes.{Text, text_eq}
use sniffy.Common.Dict.{lookup, insert, remove}
use sniffy.Service.Pages.{page_bounds}

pub record Store (V : Type 0) : Type 0 where
  pub order : List Text
  pub items : List (Text × V)
  pub cap : ℕ

unfoldable pub capacity_or : ℕ → ℤ → ℕ
capacity_or default capacity = if is_pos capacity then pos_part capacity else default

-- `s[i]`; none is a panic.
unfoldable pub get_elem? : {A : Type 0} → List A → ℕ → Option A
get_elem? [] i = none
get_elem? (x ∷ xs) zero = some x
get_elem? (x ∷ xs) (suc i) = get_elem? xs i

-- An entry that is there, as a list.
unfoldable pub found : {V : Type 0} → Option V → List V
found none = []
found (some v) = v ∷ []

-- The IDs at the indices from `i` - 1 down to `low`: the loops of `ids` and of `list`.
unfoldable pub down_to : ℕ → ℕ → List Text → Option (List Text)
unfolding get_elem?
down_to low zero order = some []
down_to low (suc i) order =
    let rest = down_to low i order in
    if leb low i
    then elim (get_elem? order i) [
      | none ↦ none
      | some id ↦ elim rest [ none ↦ none | some ids ↦ some (id ∷ ids) ]
    ]
    else some []

-- The order with its first entry of an ID removed.
unfoldable pub drop_id : Text → List Text → List Text
drop_id id [] = []
drop_id id (oid ∷ order) = if text_eq oid id then order else oid ∷ drop_id id order

-- What the loop of `trimLocked` leaves, and what it has put on the list.
pub record Trimmed (V : Type 0) : Type 0 where
  pub order : List Text
  pub items : List (Text × V)
  pub evicted : List V

module _ {V : Type 0} where
  -- `newSessionStore`, `newWSStore` and `newStreamStore`, with their default capacities.
  unfoldable pub new_store : ℕ → ℤ → Store V
  unfolding capacity_or
  new_store default capacity = record { order = []; items = []; cap = capacity_or default capacity }

  unfoldable pub trim : ℕ → List Text → List (Text × V) → Trimmed V
  unfolding found
  trim cap [] items = record { order = []; items = items; evicted = [] }
  trim cap (oldest ∷ order) items =
      let rest = trim cap order (remove oldest items) in
      if ltb cap (length (oldest ∷ order))
      then record rest { evicted = found (lookup oldest items) ++ rest.evicted }
      else record { order = oldest ∷ order; items = items; evicted = [] }

  -- `trimLocked`.
  unfoldable pub trim_locked : Store V → Store V × List V
  unfolding trim
  trim_locked s =
      let t = trim s.cap s.order s.items in
      (record s { order = t.order; items = t.items }, t.evicted)

  -- The first part of `put`: an ID that is not there is entered into the order, and the oldest go.
  unfoldable pub make_room : Store V → Text → Option V → Store V × List V
  unfolding trim_locked
  make_room s id none = trim_locked (record s { order = s.order ++ id ∷ [] })
  make_room s id (some old) = (s, [])

  -- `put` of an entry with the ID `id`.
  unfoldable pub put : Store V → Text → V → Store V × List V
  unfolding make_room
  put s id v =
      let out = make_room s id (lookup id s.items) in
      (record out.0 { items = insert id v out.0.items }, out.1)

  unfoldable pub set_cap : Store V → ℤ → Store V × List V
  unfolding trim_locked
  set_cap s n = if is_pos n then trim_locked (record s { cap = pos_part n }) else (s, [])

  unfoldable pub get : Store V → Text → Option V
  get s id = lookup id s.items

  unfoldable pub ids : Store V → Option (List Text)
  unfolding down_to
  ids s = down_to 0 (length s.order) s.order

  -- The entries of the IDs, where they have one.
  unfoldable pub entries : List (Text × V) → List Text → List V
  unfolding found
  entries items [] = []
  entries items (id ∷ ids) = found (lookup id items) ++ entries items ids

  -- The loop of `list` over the interval of a page, and the total.
  unfoldable pub page_of : Store V → ℕ × ℕ → Option (List V × ℕ)
  unfolding down_to entries
  page_of s (start, stop) =
      let total = length s.order in
      elim (down_to (total - stop) (total - start) s.order) [
        | none ↦ none
        | some ids ↦ some (entries s.items ids, total)
      ]

  unfoldable pub list : Store V → ℤ → ℤ → Option (List V × ℕ)
  unfolding page_bounds page_of
  list s page size = page_of s (page_bounds (length s.order) page size)

  unfoldable pub delete : Store V → Text → Store V × List V
  unfolding drop_id
  delete s id = elim (lookup id s.items) [
    | none ↦ (s, [])
    | some v ↦ (record s { order = drop_id id s.order; items = remove id s.items }, v ∷ [])
  ]

  -- `clear`; the callbacks come in the order in which Go ranges over the map.
  unfoldable pub clear : Store V → Store V × List V
  clear s = (record s { order = []; items = [] }, map (λ e. e.1) s.items)

-- A change of a store: every method that writes.
pub data Change (V : Type 0) : Type 0 where
  put_entry : Text → V → Change V
  new_cap : ℤ → Change V
  delete_entry : Text → Change V
  clear_all : Change V

module _ {V : Type 0} where
  unfoldable pub change : Store V → Change V → Store V × List V
  unfolding put set_cap delete clear
  change s (put_entry id v) = put s id v
  change s (new_cap n) = set_cap s n
  change s (delete_entry id) = delete s id
  change s clear_all = clear s

  -- Changes one behind the other, and all evicted entries.
  unfoldable pub change_all : List (Change V) → Store V → Store V × List V
  unfolding change
  change_all [] s = (s, [])
  change_all (c ∷ cs) s =
      let rest = change_all cs (change s c).0 in (rest.0, (change s c).1 ++ rest.1)
