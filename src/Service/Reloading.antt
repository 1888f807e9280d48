-- ===== src/Service/Reloading.antt =====
-- internal/service/rules.go: what is on the disk is what is in the store.
use sniffy.Common.{
  ◌≡◌, refl, subst, ◌∙◌, false, List, [], ◌∷◌, map, Option, none, some, arith, is_nil, if_elim, All,
}
use sniffy.Common.Bytes.{Text, text_eq}
use sniffy.Common.Dict.{lookup, remove, All-insert}
use sniffy.Rules.Types.{Rule}
use sniffy.Service.RuleStore.{
  Json, RuleStore, list, enter_some, rules_in, load, new_rule_store, save, create, replace, update,
  toggle, delete, delete_found, Edit, create_rule, update_rule, toggle_rule, delete_rule, edit,
  edit_all, get, stamped,
}
use sniffy.Service.Loading.{
  IsNamed, Finds, lookup-id, entries-Finds, enter_rules, enter_all-some, list-enter_rules,
  enter_some-Loaded,
}

-- What JSON writes of these rules is read back.
abbrev pub ReadsBack : {C : Type 0} → Json C → List Rule → Type 0
ReadsBack {C = C} json rules =
    (b : C) × (json.marshal rules ≡ some b) × (json.unmarshal b ≡ some (map some rules))

-- So it is for the rules that each of the edits leaves.
abbrev pub AllReadBack : {C : Type 0} → Json C → List Edit → RuleStore C → Type 0
AllReadBack json [] rs = Unit
AllReadBack json (e ∷ es) rs =
    ReadsBack json (list (edit json rs e)) × AllReadBack json es (edit json rs e)

-- A service that is started on the file does not panic, and lists the rules.
abbrev pub Restarts : {C : Type 0} → Json C → Text → Option C → List Rule → Type 0
Restarts {C = C} json path file rules =
    (fresh : RuleStore C) × (new_rule_store json path file ≡ some fresh) × (list fresh ≡ rules)

-- A store started on the same file lists the same rules; and rules stand under their IDs.
pub record InSync {C : Type 0} (json : Json C) (rs : RuleStore C) : Type 0 where
  pub named : All IsNamed rs.items
  pub reloads : Restarts json rs.path rs.file (list rs)
  pub has_path : is_nil rs.path ≡ false

All-IsNamed-remove : (k : Text) (m : List (Text × Rule)) → All IsNamed m → All IsNamed (remove k m)
unfolding remove
All-IsNamed-remove k [] a = tt
All-IsNamed-remove k ((j, r) ∷ m) a =
    if_elim (All IsNamed) (text_eq j k) _ _ (λ _. All-IsNamed-remove k m a.1)
      (λ _. (a.0, All-IsNamed-remove k m a.1))

module _ {C : Type 0} (json : Json C) where
  restarts_at :
      (path p : Text) (file f : Option C)
      → p ≡ path
      → f ≡ file
      → new_rule_store json p f ≡ new_rule_store json path file
  restarts_at path p file f e g = cc

  new_rule_store-InSync :
      (path : Text) (file : Option C) (rs : RuleStore C)
      → is_nil path ≡ false
      → new_rule_store json path file ≡ some rs
      → InSync json rs
  unfolding new_rule_store load
  new_rule_store-InSync path file rs h e =
      let start : RuleStore C = record { order = []; items = []; path = path; file = file } in
      let e' : enter_some (rules_in json file) start ≡ some rs = ground (arith, h, e) in
      let l = enter_some-Loaded (rules_in json file) start rs e' tt in
      record {
        named = l.named;
        reloads = (rs, restarts_at path rs.path file rs.file l.same_path l.same_file ∙ e, refl);
        has_path = rw l.same_path h;
      }

  list-save : (rs : RuleStore C) → list (save json rs) ≡ list rs
  unfolding list save
  list-save rs = ground arith

  save-InSync :
      (rs : RuleStore C)
      → All IsNamed rs.items
      → is_nil rs.path ≡ false
      → ReadsBack json (list (save json rs))
      → InSync json (save json rs)
  unfolding list
  save-InSync rs n p back =
      let (b, w, r) = subst (ReadsBack json) (list-save rs) back in
      let f : All (Finds rs.items) (list rs) = unfold list in entries-Finds rs.items rs.order n in
      let start : RuleStore C = record { order = []; items = []; path = rs.path; file = some b } in
      let s : save json rs ≡ record rs { file = some b } = unfold save in ground (arith, p, w) in
      rw s (record {
        named = n;
        reloads = (
          enter_rules (list rs) start,
          unfold new_rule_store load rules_in enter_some in
              ground (arith, p, r, enter_all-some (list rs) start),
          list-enter_rules rs.items (list rs) rs.path (some b) f,
        );
        has_path = p;
      })

  replace-InSync :
      (rs : RuleStore C) (id : Text) (o : Option Rule) (change : Rule → Rule)
      → ((r : Rule) → o ≡ some r → id ≡ (change r).id)
      → ReadsBack json (list (replace json rs id o change).0)
      → InSync json rs
      → InSync json (replace json rs id o change).0
  unfolding replace
  replace-InSync rs id none change h back i = i
  replace-InSync rs id (some old) change h back i =
      save-InSync _ (All-insert IsNamed id (change old) rs.items (h old refl) i.named) i.has_path
        back

  delete_found-InSync :
      (rs : RuleStore C) (id : Text) (o : Option Rule)
      → ReadsBack json (list (delete_found json rs id o))
      → InSync json rs
      → InSync json (delete_found json rs id o)
  unfolding delete_found
  delete_found-InSync rs id none back i = i
  delete_found-InSync rs id (some r) back i =
      save-InSync _ (All-IsNamed-remove id rs.items i.named) i.has_path back

  edit-InSync :
      (rs : RuleStore C) (e : Edit)
      → ReadsBack json (list (edit json rs e))
      → InSync json rs
      → InSync json (edit json rs e)
  unfolding edit create update toggle delete get
  edit-InSync rs (create_rule new_id now r) back i =
      save-InSync _
        (All-insert IsNamed (stamped new_id now r).id (stamped new_id now r) rs.items refl i.named)
        i.has_path back
  edit-InSync rs (update_rule now id r) back i =
      replace-InSync rs id (lookup id rs.items) _ (λ _ _. refl) back i
  edit-InSync rs (toggle_rule now id enabled) back i =
      replace-InSync rs id (lookup id rs.items) _ (λ r e. lookup-id id r rs.items i.named e) back i
  edit-InSync rs (delete_rule id) back i = delete_found-InSync rs id (lookup id rs.items) back i

  edit_all-InSync :
      (es : List Edit) (rs : RuleStore C)
      → AllReadBack json es rs
      → InSync json rs
      → InSync json (edit_all json es rs)
  unfolding edit_all
  edit_all-InSync [] rs back i = i
  edit_all-InSync (e ∷ es) rs back i =
      edit_all-InSync es (edit json rs e) back.1 (edit-InSync rs e back.0 i)

-- From a service that has started, however the rules are edited, a service that is started anew on
-- the file does not panic and lists the rules that were in the store, in their order: if what JSON
-- writes of the rules that each edit leaves is read back. (Of other rules it may not be: JSON replaces
-- bytes that are not UTF-8.)
pub reload-edit_all :
    {C : Type 0} (json : Json C) (path : Text) (file : Option C) (start : RuleStore C)
    (es : List Edit)
    → is_nil path ≡ false
    → new_rule_store json path file ≡ some start
    → AllReadBack json es start
    → let rs = edit_all json es start in Restarts json rs.path rs.file (list rs)
reload-edit_all json path file start es h e back =
    (edit_all-InSync json es start back (new_rule_store-InSync json path file start h e)).reloads
