-- ===== src/Cleanup.antt =====
-- cleanup.cpp: the retention pass and the quota pass over logs/<port2>/. A listing leaves out the
-- entries "." and ".."; rmdir removes a directory that has no file left. std::sort is a parameter, which
-- gets the comparison.
mod Seen
mod Quota
mod Pass
mod Tests
use udpproxy.Prelude.{
  ℕ, ◌+◌, ◌-◌, ◌*◌, Bool, false, not, ◌&&◌, Option, none, some, List, [], ◌∷◌, ltb, leb,
  if◌then◌else◌,
}
use udpproxy.Session.Names.{Stat, FileEntry, DateDir, Tree, is_session_file, is_hidden}

abbrev pub max_bytes : ℕ
max_bytes = 1024 * 1024 * 1024

is_old : ℕ → ℕ → Option Stat → Bool
is_old now cutoff none = false
is_old now cutoff (some st) = ltb (st.mtime + cutoff) now

-- A session file that stat() finds to be older than the cutoff.
pub is_expired : ℕ → ℕ → FileEntry → Bool
unfolding is_old
is_expired now cutoff e =
    (not (is_hidden e.name) && is_session_file e.name) && is_old now cutoff e.stat

pub retain_files : ℕ → ℕ → List FileEntry → List FileEntry
retain_files now cutoff [] = []
retain_files now cutoff (e ∷ es) =
    let rest = retain_files now cutoff es in
    if is_expired now cutoff e && e.unlinks then rest else e ∷ rest

-- A directory that is left, or `none` if it was removed.
left_dir : DateDir → List FileEntry → List DateDir → List DateDir
left_dir d [] rest = rest
left_dir d (e ∷ es) rest = record d { files = some (e ∷ es) } ∷ rest

retain_dir : ℕ → ℕ → DateDir → Option (List FileEntry) → List DateDir → List DateDir
unfolding left_dir
retain_dir now cutoff d none rest = d ∷ rest
retain_dir now cutoff d (some files) rest = left_dir d (retain_files now cutoff files) rest

pub retain_dirs : ℕ → ℕ → List DateDir → List DateDir
unfolding retain_dir
retain_dirs now cutoff [] = []
retain_dirs now cutoff (d ∷ ds) =
    let rest = retain_dirs now cutoff ds in
    if is_hidden d.name
    then d ∷ rest
    else if d.is_dir
    then retain_dir now cutoff d d.files rest
    else d ∷ rest

-- `cutoff` is cutoff_age_s without its fraction, with which ages in whole seconds compare alike;
-- `none` stands for retention_days <= 0.
pub retention_pass : Option ℕ → ℕ → Tree → Tree
retention_pass none now tree = tree
retention_pass (some cutoff) now none = none
retention_pass (some cutoff) now (some dirs) = some (retain_dirs now cutoff dirs)

pub record Item : Type 0 where
  pub date_dir : List ℕ
  pub name : List ℕ
  pub size : ℕ
  pub mtime : ℕ
  pub unlinks : Bool

item_of : DateDir → FileEntry → Option Stat → List Item → List Item
item_of d e none rest = rest
item_of d e (some st) rest =
    record {
      date_dir = d.name;
      name = e.name;
      size = st.size;
      mtime = st.mtime;
      unlinks = e.unlinks;
    }
    ∷ rest

pub items_of_files : DateDir → List FileEntry → List Item → List Item
unfolding item_of
items_of_files d [] more = more
items_of_files d (e ∷ es) more =
    let rest = items_of_files d es more in
    if is_hidden e.name
    then rest
    else if is_session_file e.name
    then item_of d e e.stat rest
    else rest

items_of_dir : DateDir → Option (List FileEntry) → List Item → List Item
items_of_dir d none more = more
items_of_dir d (some files) more = items_of_files d files more

pub items_of_dirs : List DateDir → List Item
unfolding items_of_dir
items_of_dirs [] = []
items_of_dirs (d ∷ ds) =
    let rest = items_of_dirs ds in
    if is_hidden d.name then rest else if d.is_dir then items_of_dir d d.files rest else rest

pub items_of : Tree → List Item
items_of none = []
items_of (some dirs) = items_of_dirs dirs

pub sum_sizes : List Item → ℕ
sum_sizes [] = 0
sum_sizes (it ∷ its) = it.size + sum_sizes its

-- What the quota pass leaves: the total, the files removed, in turn, and the files kept.
pub record Evicted : Type 0 where
  pub total : ℕ
  pub removed : List Item
  pub kept : List Item

-- The loop over the sorted files.
pub evict : ℕ → List Item → Evicted
evict total [] = record { total = total; removed = []; kept = [] }
evict total (it ∷ its) =
    let gone = evict (total - it.size) its in
    let stays = evict total its in
    if leb total max_bytes
    then record { total = total; removed = []; kept = it ∷ its }
    else if it.unlinks
    then record gone { removed = it ∷ gone.removed }
    else record stays { kept = it ∷ stays.kept }

-- The comparison that std::sort is given.
pub is_older : Item → Item → Bool
is_older a b = ltb a.mtime b.mtime

-- std::sort, given a comparison.
abbrev pub Sort : Type 0
Sort = (Item → Item → Bool) → List Item → List Item

pub enforce_port2_quota : Sort → Tree → Evicted
enforce_port2_quota sort tree =
    let items = items_of tree in
    if leb (sum_sizes items) max_bytes
    then record { total = sum_sizes items; removed = []; kept = items }
    else evict (sum_sizes items) (sort is_older items)

pub cleanup_for_port2 : Sort → Option ℕ → ℕ → Tree → Evicted
cleanup_for_port2 sort retention now tree =
    enforce_port2_quota sort (retention_pass retention now tree)
