-- ===== src/Samples/Bodies.antt =====
-- internal/bodycache on a concrete cache.
use sniffy.Common.{◌≡◌, refl, List, [], ◌∷◌}
use sniffy.Common.Int.{pos}
use sniffy.Common.Bytes.{codes, text_eq}
use sniffy.Common.Dict.{lookup, insert, remove}
use sniffy.BodyCache.{Cache, Disk, new, commit, enter_copy, evict, evict_locked, size_of}
use sniffy.BodyCache.Accounts.{IsSound}
use sniffy.BodyCache.Calls.{Change, commits, change_all, change_all-new-IsSound}

-- One file cannot be removed.
abbrev disk : Disk
disk = record {
  files = (codes "/b/1.body", 60) ∷ (codes "/b/2.body", 30) ∷ [];
  locked = λ p. text_eq p (codes "/b/1.body");
}

abbrev calls : List Change
calls = commits (codes "/b/1.body") 60 ∷ commits (codes "/b/2.body") 30 ∷ []

change_all-new-IsSound_example : IsSound (change_all (new (codes "/b") (pos 100) disk) calls).0
change_all-new-IsSound_example = change_all-new-IsSound (codes "/b") (pos 100) disk calls

abbrev filled : Cache
filled = record {
  dir = codes "/b";
  budget = 100;
  order = codes "/b/1.body" ∷ codes "/b/2.body" ∷ [];
  sizes = (codes "/b/1.body", 60) ∷ (codes "/b/2.body", 30) ∷ [];
  total = 90;
}

-- A third copy goes over the budget, and the first is taken away.
third_commit :
    (commit filled (codes "/b/3.body") 50 disk).0.order ≡ codes "/b/2.body" ∷ codes "/b/3.body" ∷ []
unfolding commit enter_copy evict_locked evict size_of lookup insert remove text_eq
third_commit = refl
