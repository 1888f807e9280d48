-- ===== src/BodyCache/Store.antt =====
-- internal/bodycache/bodycache.go. A cache that is nil is `none`. The disk is the list of the files
-- of the cache's folder with their lengths; that an operating system call fails is an argument.
-- Sizes are int64 in the source: here they have no upper bound, and the total, of which the source
-- takes sizes away, is never less than what is taken (see Accounts).
use sniffy.Common.{
  ℕ, ◌+◌, ◌-◌, ◌*◌, ◌^◌, Bool, true, false, ◌||◌, not, List, [], ◌∷◌, ◌++◌, map, Option, none, some,
  ltb, is_nil, length, if◌then◌else◌,
}
use sniffy.Common.Int.{ℤ, is_pos, pos_part}
use sniffy.Common.Bytes.{Text, Bytes, codes, text_eq}
use sniffy.Common.Dict.{lookup, insert, remove}

-- 2 GiB.
unfoldable pub default_budget : ℕ
default_budget = 2 * 2 ^ 30

pub record Disk : Type 0 where
  pub files : List (Text × ℕ)
  pub locked : Text → Bool

-- `os.Remove`: a failure leaves the file, and is ignored by the callers.
unfoldable pub unlink : Text → Disk → Disk
unfolding remove
unlink p disk = if disk.locked p then disk else record disk { files = remove p disk.files }

pub record Cache : Type 0 where
  pub dir : Text
  pub budget : ℕ
  pub order : List Text
  pub sizes : List (Text × ℕ)
  pub total : ℕ

-- `os.Remove` of each path.
unfoldable pub unlink_all : List Text → Disk → Disk
unfolding unlink
unlink_all [] disk = disk
unlink_all (p ∷ ps) disk = unlink_all ps (unlink p disk)

budget_or_default : ℤ → ℕ
unfolding default_budget
budget_or_default b = if is_pos b then pos_part b else default_budget

-- `New`, where making or reading the folder does not fail: the files in it are removed.
unfoldable pub new : Text → ℤ → Disk → Cache × Disk
unfolding budget_or_default unlink_all
new dir budget disk = (
  record { dir = dir; budget = budget_or_default budget; order = []; sizes = []; total = 0 },
  unlink_all (map (λ e. e.0) disk.files) disk,
)

-- `filepath.Join(c.dir, name)` for a folder that is not empty and a name with no separators.
unfoldable pub join_path : Text → Text → Text
join_path dir name = dir ++ codes "/" ++ name

unfoldable pub size_of : Text → List (Text × ℕ) → ℕ
size_of p sizes = elim (lookup p sizes) [ none ↦ 0 | some n ↦ n ]

-- What the loop of `evictLocked` leaves, and the paths that it has put on the list for deletion.
pub record Evicted : Type 0 where
  pub order : List Text
  pub sizes : List (Text × ℕ)
  pub total : ℕ
  pub stale : List Text

unfoldable pub evict : ℕ → List Text → List (Text × ℕ) → ℕ → Evicted
evict budget [] sizes total = record { order = []; sizes = sizes; total = total; stale = [] }
evict budget (oldest ∷ order) sizes total =
    let rest = evict budget order (remove oldest sizes) (total - size_of oldest sizes) in
    if ltb budget total
    then record rest { stale = oldest ∷ rest.stale }
    else record { order = oldest ∷ order; sizes = sizes; total = total; stale = [] }

-- `evictLocked`: the cache, and the stale paths.
unfoldable pub evict_locked : Cache → Cache × List Text
unfolding evict
evict_locked c =
    let e = evict c.budget c.order c.sizes c.total in
    (record c { order = e.order; sizes = e.sizes; total = e.total }, e.stale)

unfoldable pub set_budget : Cache → ℤ → Disk → Cache × Disk
unfolding evict_locked unlink_all
set_budget c budget disk =
    let out = evict_locked (record c { budget = pos_part budget }) in
    if is_pos budget then (out.0, unlink_all out.1 disk) else (c, disk)

-- The order with its first entry of a path removed.
unfoldable pub drop_path : Text → List Text → List Text
drop_path path [] = []
drop_path path (p ∷ ps) = if text_eq p path then ps else p ∷ drop_path path ps

unfoldable pub forget_locked : Cache → Text → Cache
unfolding drop_path
forget_locked c path = elim (lookup path c.sizes) [
  | none ↦ c
  | some size ↦ record c {
    sizes = remove path c.sizes;
    total = c.total - size;
    order = drop_path path c.order;
  }
]

-- `Remove`.
unfoldable pub remove_copy : Cache → Text → Disk → Cache × Disk
unfolding forget_locked unlink
remove_copy c path disk =
    if is_nil path then (c, disk) else (forget_locked c path, unlink path disk)

unfoldable pub clear : Cache → Disk → Cache × Disk
unfolding unlink_all
clear c disk = (record c { order = []; sizes = []; total = 0 }, unlink_all c.order disk)

-- `commit` up to the eviction: the copy is entered into the books.
unfoldable pub enter_copy : Cache → Text → ℕ → Cache
enter_copy c path size = elim (lookup path c.sizes) [
  | none ↦ record c {
    order = c.order ++ path ∷ [];
    sizes = insert path size c.sizes;
    total = c.total + size;
  }
  | some old ↦ record c { sizes = insert path size c.sizes; total = c.total - old + size }
]

unfoldable pub commit : Cache → Text → ℕ → Disk → Cache × Disk
unfolding enter_copy evict_locked unlink_all
commit c path size disk =
    let out = evict_locked (enter_copy c path size) in (out.0, unlink_all out.1 disk)

-- A file with its new length.
unfoldable pub set_file : Text → ℕ → Disk → Disk
unfolding insert
set_file p n disk = record disk { files = insert p n disk.files }

-- `Entry`: a copy that is being written. A nil entry is `none`.
pub record Entry : Type 0 where
  pub path : Text
  pub n : ℕ
  pub failed : Bool

-- `Create`; `opens` tells whether the file can be opened.
unfoldable pub create : Option Cache → Text → Bool → Disk → Option Entry × Disk
unfolding join_path
create none flow_id opens disk = (none, disk)
create (some c) flow_id opens disk =
    let path = join_path c.dir (flow_id ++ codes ".body") in
    if is_nil flow_id || not opens
    then (none, disk)
    else (some (record { path = path; n = 0; failed = false }), set_file path 0 disk)

-- `Write` of `p`: the operating system takes `accepted` bytes, and reports an error or not. The
-- reported count is always all of `p`.
unfoldable pub write : Option Entry → Bytes → ℕ → Bool → Disk → Option Entry × ℕ × Disk
write none p accepted error disk = (none, length p, disk)
write (some e) p accepted error disk =
    if e.failed
    then (some e, length p, disk)
    else if error
    then (some (record e { n = e.n + accepted; failed = true }), length p, unlink e.path disk)
    else (some (record e { n = e.n + accepted }), length p, set_file e.path (e.n + accepted) disk)

-- `Commit` of an entry; `closes` tells whether the file can be closed.
unfoldable pub commit_entry : Cache → Option Entry → Bool → Disk → Cache × (Text × ℕ) × Disk
unfolding commit
commit_entry c none closes disk = (c, ([], 0), disk)
commit_entry c (some e) closes disk =
    let done = commit c e.path e.n disk in
    if e.failed
    then (c, ([], 0), disk)
    else if not closes
    then (c, ([], 0), unlink e.path disk)
    else (done.0, (e.path, e.n), done.1)

-- `Abort`.
unfoldable pub abort_entry : Option Entry → Disk → Option Entry × Disk
abort_entry none disk = (none, disk)
abort_entry (some e) disk =
    if e.failed then (some e, disk) else (some (record e { failed = true }), unlink e.path disk)
