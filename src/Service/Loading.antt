-- ===== src/Service/Loading.antt =====
-- internal/service/rules.go: what a store holds that is filled from a file.
use sniffy.Common.{
  ◌≡◌, refl, sym, ap, subst, ◌∙◌, inl, inr, List, [], ◌∷◌, ◌++◌, map, append-nil, append_assoc,
  Option, none, some, arith, Bool-cases, Option-cases, All,
}
use sniffy.Common.Bytes.{Text, text_eq, text_eq_iff}
use sniffy.Common.Dict.{lookup, insert, lookup-insert, All-insert}
use sniffy.Rules.Types.{Rule}
use sniffy.Service.Sessions.{entries, found}
use sniffy.Service.RuleStore.{RuleStore, list, enter_all, enter_some}

-- Every rule stands under its ID.
abbrev pub IsNamed : Text × Rule → Type 0
IsNamed e = e.0 ≡ e.1.id

-- Every rule is found under its ID.
abbrev pub Finds : List (Text × Rule) → Rule → Type 0
Finds m r = lookup r.id m ≡ some r

pub lookup-id :
    (k : Text) (r : Rule) (m : List (Text × Rule)) → All IsNamed m → lookup k m ≡ some r → k ≡ r.id
unfolding lookup
lookup-id k r [] a h = absurd cc
lookup-id k r ((j, s) ∷ m) a h = elim (Bool-cases (text_eq j k)) [
  | inl e ↦ ground (arith, text_eq_iff j k)
  | inr e ↦ lookup-id k r m a.1 (ground arith)
]

pub entries-Finds :
    (m : List (Text × Rule)) (order : List Text) → All IsNamed m → All (Finds m) (entries m order)
unfolding entries
entries-Finds m [] a = tt
entries-Finds m (id ∷ order) a = elim (Option-cases (lookup id m)) [
  | inl e ↦ unfold found in rw e (entries-Finds m order a)
  | inr (r, e) ↦
      let i = lookup-id id r m a e in
      unfold found in rw e (ap (λ x. lookup x m) (sym i) ∙ e, entries-Finds m order a)
]

entries_found :
    (m : List (Text × Rule)) (rules : List Rule)
    → All (Finds m) rules
    → entries m (map (λ r. r.id) rules) ≡ rules
unfolding entries
entries_found m [] a = refl
entries_found m (r ∷ rules) a = rw (a.0, found, entries_found m rules a.1)

-- What the loop of `load` leaves where no element is null.
pub enter_rules : {C : Type 0} → List Rule → RuleStore C → RuleStore C
enter_rules [] rs = rs
enter_rules (r ∷ rules) rs =
    enter_rules rules (record rs { items = insert r.id r rs.items; order = rs.order ++ r.id ∷ [] })

pub enter_all-some :
    {C : Type 0} (rules : List Rule) (rs : RuleStore C)
    → enter_all (map some rules) rs ≡ some (enter_rules rules rs)
unfolding enter_all enter_rules
enter_all-some [] rs = refl
enter_all-some (r ∷ rules) rs = enter_all-some rules _

enter_rules-order :
    {C : Type 0} (rules : List Rule) (rs : RuleStore C)
    → (enter_rules rules rs).order ≡ rs.order ++ map (λ r. r.id) rules
unfolding enter_rules
enter_rules-order [] rs = sym (append-nil rs.order)
enter_rules-order (r ∷ rules) rs =
    enter_rules-order rules _ ∙ append_assoc rs.order (r.id ∷ []) (map (λ r. r.id) rules)

-- What the store agrees on with the old map stays so.
enter_rules-keeps :
    {C : Type 0} (m : List (Text × Rule)) (rules : List Rule) (rs : RuleStore C) (k : Text)
    → All (Finds m) rules
    → lookup k rs.items ≡ lookup k m
    → lookup k (enter_rules rules rs).items ≡ lookup k m
unfolding enter_rules
enter_rules-keeps m [] rs k a h = h
enter_rules-keeps m (r ∷ rules) rs k a h =
    enter_rules-keeps m rules _ k a.1
      (ground (arith, lookup-insert r.id k r rs.items, text_eq_iff r.id k, a.0))

enter_rules-Finds :
    {C : Type 0} (m : List (Text × Rule)) (rules : List Rule) (rs : RuleStore C)
    → All (Finds m) rules
    → All (Finds (enter_rules rules rs).items) rules
unfolding enter_rules
enter_rules-Finds m [] rs a = tt
enter_rules-Finds m (r ∷ rules) rs a = (
  enter_rules-keeps m rules _ r.id a.1
        (ground (arith, lookup-insert r.id r.id r rs.items, text_eq_iff r.id r.id, a.0))
      ∙ a.0,
  enter_rules-Finds m rules _ a.1,
)

-- A store that is filled with the rules of another one lists the same.
pub list-enter_rules :
    {C : Type 0} (m : List (Text × Rule)) (rules : List Rule) (path : Text) (file : Option C)
    → All (Finds m) rules
    → list (enter_rules rules (record { order = []; items = []; path = path; file = file })) ≡ rules
unfolding list
list-enter_rules {C = C} m rules path file a =
    let rs : RuleStore C = record { order = []; items = []; path = path; file = file } in
    rw (enter_rules-order rules rs)
      (entries_found (enter_rules rules rs).items rules (enter_rules-Finds m rules rs a))

-- What loading leaves as it was, and that rules stand under their IDs.
pub record Loaded {C : Type 0} (rs rs' : RuleStore C) : Type 0 where
  pub same_path : rs'.path ≡ rs.path
  pub same_file : rs'.file ≡ rs.file
  pub named : All IsNamed rs'.items

enter_all-Loaded :
    {C : Type 0} (rules : List (Option Rule)) (rs rs' : RuleStore C)
    → enter_all rules rs ≡ some rs'
    → All IsNamed rs.items
    → Loaded rs rs'
unfolding enter_all
enter_all-Loaded [] rs rs' e a =
    let k : rs ≡ rs' = cc in
    subst (Loaded rs) k (record { same_path = refl; same_file = refl; named = a })
enter_all-Loaded (none ∷ rules) rs rs' e a = absurd cc
enter_all-Loaded (some r ∷ rules) rs rs' e a =
    let l = enter_all-Loaded rules _ rs' e (All-insert IsNamed r.id r rs.items refl a) in
    record { same_path = l.same_path; same_file = l.same_file; named = l.named }

pub enter_some-Loaded :
    {C : Type 0} (o : Option (List (Option Rule))) (rs rs' : RuleStore C)
    → enter_some o rs ≡ some rs'
    → All IsNamed rs.items
    → Loaded rs rs'
unfolding enter_some
enter_some-Loaded none rs rs' e a =
    let k : rs ≡ rs' = cc in
    subst (Loaded rs) k (record { same_path = refl; same_file = refl; named = a })
enter_some-Loaded (some rules) rs rs' e a = enter_all-Loaded rules rs rs' e a
