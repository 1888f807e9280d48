-- ===== src/Service/RuleStore.antt =====
-- internal/service/rules.go: `ruleStore`. The file is its content, of the type `C`, or
-- nothing where there is none; `encoding/json` is the argument `json`, and time and random IDs are arguments. Writing the file
-- does not fail here: the source ignores the error.
use sniffy.Common.{Bool, List, [], ◌∷◌, ◌++◌, Option, none, some, is_nil, if◌then◌else◌}
use sniffy.Common.Bytes.{Text, codes}
use sniffy.Common.Dict.{lookup, insert, remove}
use sniffy.Rules.Types.{Rule}
use sniffy.Service.Sessions.{drop_id, entries}

-- `json.MarshalIndent` and `json.Unmarshal` on rules; none is an error. An element that is null gives
-- a nil pointer, which is none.
pub record Json (C : Type 0) : Type 0 where
  pub marshal : List Rule → Option C
  pub unmarshal : C → Option (List (Option Rule))

pub record RuleStore (C : Type 0) : Type 0 where
  pub order : List Text
  pub items : List (Text × Rule)
  pub path : Text
  pub file : Option C

-- The rule as `create` enters it.
unfoldable pub stamped : Text → Text → Rule → Rule
stamped new_id now r = record r {
  id = codes "rule-" ++ new_id;
  created_at = now;
  updated_at = now;
  logic_operator = if is_nil r.logic_operator then codes "AND" else r.logic_operator;
}

-- A call that writes.
pub data Edit : Type 0 where
  create_rule : Text → Text → Rule → Edit
  update_rule : Text → Text → Rule → Edit
  toggle_rule : Text → Text → Bool → Edit
  delete_rule : Text → Edit

module _ {C : Type 0} where
  -- `list`: the rules of the order that are there. The loop of `save` is the same.
  unfoldable pub list : RuleStore C → List Rule
  unfolding entries
  list rs = entries rs.items rs.order

  -- The loop of `load`; none is a panic, on a nil pointer.
  unfoldable pub enter_all : List (Option Rule) → RuleStore C → Option (RuleStore C)
  enter_all [] rs = some rs
  enter_all (none ∷ rules) rs = none
  enter_all (some r ∷ rules) rs =
      enter_all rules (record rs { items = insert r.id r rs.items; order = rs.order ++ r.id ∷ [] })

  -- The rules in a file that can be read and understood.
  unfoldable pub rules_in : Json C → Option C → Option (List (Option Rule))
  rules_in json none = none
  rules_in json (some content) = json.unmarshal content

  unfoldable pub enter_some : Option (List (Option Rule)) → RuleStore C → Option (RuleStore C)
  unfolding enter_all
  enter_some none rs = some rs
  enter_some (some rules) rs = enter_all rules rs

  unfoldable pub load : Json C → RuleStore C → Option (RuleStore C)
  unfolding rules_in enter_some
  load json rs = if is_nil rs.path then some rs else enter_some (rules_in json rs.file) rs

  -- `newRuleStore`.
  unfoldable pub new_rule_store : Json C → Text → Option C → Option (RuleStore C)
  unfolding load
  new_rule_store json path file =
      load json (record { order = []; items = []; path = path; file = file })

  unfoldable pub save : Json C → RuleStore C → RuleStore C
  unfolding list
  save json rs = if is_nil rs.path then rs else elim (json.marshal (list rs)) [
    | none ↦ rs
    | some content ↦ record rs { file = some content }
  ]

  unfoldable pub get : RuleStore C → Text → Option Rule
  get rs id = lookup id rs.items

  unfoldable pub create : Json C → Text → Text → RuleStore C → Rule → RuleStore C × Rule
  unfolding stamped save
  create json new_id now rs rule =
      let r = stamped new_id now rule in
      (save json (record rs { items = insert r.id r rs.items; order = rs.order ++ r.id ∷ [] }), r)

  -- A rule in the place of the one with its ID, where there is one.
  unfoldable pub replace :
      Json C → RuleStore C → Text → Option Rule → (Rule → Rule) → RuleStore C × Option Rule
  unfolding save
  replace json rs id none change = (rs, none)
  replace json rs id (some old) change =
      (save json (record rs { items = insert id (change old) rs.items }), some (change old))

  -- `update`: the ID and the time of creation stay.
  unfoldable pub update : Json C → Text → RuleStore C → Text → Rule → RuleStore C × Option Rule
  unfolding replace get
  update json now rs id updated =
      replace json rs id (get rs id)
        (λ existing. record updated { id = id; created_at = existing.created_at; updated_at = now })

  -- `toggle`, which edits the rule in its place.
  unfoldable pub toggle : Json C → Text → RuleStore C → Text → Bool → RuleStore C × Option Rule
  unfolding replace get
  toggle json now rs id enabled =
      replace json rs id (get rs id) (λ r. record r { enabled = enabled; updated_at = now })

  unfoldable pub delete_found : Json C → RuleStore C → Text → Option Rule → RuleStore C
  unfolding drop_id save
  delete_found json rs id none = rs
  delete_found json rs id (some r) =
      save json (record rs { items = remove id rs.items; order = drop_id id rs.order })

  unfoldable pub delete : Json C → RuleStore C → Text → RuleStore C
  unfolding delete_found
  delete json rs id = delete_found json rs id (lookup id rs.items)

  unfoldable pub edit : Json C → RuleStore C → Edit → RuleStore C
  unfolding create update toggle delete
  edit json rs (create_rule new_id now r) = (create json new_id now rs r).0
  edit json rs (update_rule now id r) = (update json now rs id r).0
  edit json rs (toggle_rule now id enabled) = (toggle json now rs id enabled).0
  edit json rs (delete_rule id) = delete json rs id

  unfoldable pub edit_all : Json C → List Edit → RuleStore C → RuleStore C
  unfolding edit
  edit_all json [] rs = rs
  edit_all json (e ∷ es) rs = edit_all json es (edit json rs e)
