-- ===== src/BodyCache/Calls.antt =====
-- internal/bodycache/bodycache.go: the calls of a cache, one after the other.
use sniffy.Common.{
  ℕ, refl, Bool, true, false, List, [], ◌∷◌, Option, none, some, arith, if_elim, is_nil,
}
use sniffy.Common.Int.{ℤ, is_pos, pos_part}
use sniffy.Common.Bytes.{Text}
use sniffy.BodyCache.Store.{Cache, Disk, new, set_budget, remove_copy, clear, enter_copy, commit}
use sniffy.BodyCache.Accounts.{
  IsSound, enter_copy-IsBalanced, evict_locked-IsSound, forget_locked-IsSound,
}

pub data Change : Type 0 where
  commits : Text → ℕ → Change
  removes : Text → Change
  sets_budget : ℤ → Change
  clears : Change

unfoldable pub change : Cache × Disk → Change → Cache × Disk
change (c, disk) (commits path size) = commit c path size disk
change (c, disk) (removes path) = remove_copy c path disk
change (c, disk) (sets_budget budget) = set_budget c budget disk
change (c, disk) clears = clear c disk

change-IsSound : (c : Cache) (disk : Disk) (x : Change) → IsSound c → IsSound (change (c, disk) x).0
unfolding change commit remove_copy set_budget clear
change-IsSound c disk (commits path size) v =
    evict_locked-IsSound (enter_copy c path size) (enter_copy-IsBalanced c path size v.balanced)
change-IsSound c disk (removes path) v =
    if_elim (λ (x : Cache × Disk). IsSound x.0) (is_nil path) _ _ (λ _. v)
      (λ _. forget_locked-IsSound c path v)
change-IsSound c disk (sets_budget budget) v =
    if_elim (λ (x : Cache × Disk). IsSound x.0) (is_pos budget) _ _
      (λ _. evict_locked-IsSound (record c { budget = pos_part budget }) v.balanced) (λ _. v)
change-IsSound c disk clears v = record {
  balanced = record { listed = refl; distinct = tt; summed = refl };
  within = omega arith;
}

unfoldable pub change_all : Cache × Disk → List Change → Cache × Disk
change_all s [] = s
change_all s (x ∷ xs) = change_all (change s x) xs

change_all-IsSound :
    (s : Cache × Disk) (xs : List Change) → IsSound s.0 → IsSound (change_all s xs).0
unfolding change_all
change_all-IsSound s [] v = v
change_all-IsSound (c, disk) (x ∷ xs) v =
    change_all-IsSound (change (c, disk) x) xs (change-IsSound c disk x v)

-- After any calls on a new cache the books agree (the order lists each committed copy once, and the
-- total is the sum of their sizes), and the total is within the budget.
pub change_all-new-IsSound :
    (dir : Text) (budget : ℤ) (disk : Disk) (xs : List Change)
    → IsSound (change_all (new dir budget disk) xs).0
unfolding new
change_all-new-IsSound dir budget disk xs = change_all-IsSound (new dir budget disk) xs (record {
  balanced = record { listed = refl; distinct = tt; summed = refl };
  within = omega arith;
})

abbrev pub is_some : Option ℕ → Bool
is_some none = false
is_some (some _) = true
