-- ===== src/Cleanup/Seen.antt =====
-- The quota pass looks at every session file that the retention pass leaves.
use udpproxy.Prelude.{
  ℕ, ◌+◌, ◌-◌, ◌≤◌, ◌≡◌, refl, sym, ap, ◌∙◌, subst, ◌≢◌, ◌⊎◌, inl, inr, Bool, true, false, ◌&&◌,
  Option, none, some, List, [], ◌∷◌, ◌++◌, arith, ltb, leb, if◌then◌else◌, Bool-cases, Option-cases,
  length, length-append, drop_front,
}
use mathlib.Core.List.{Memᴰ, Permᴰ}
use udpproxy.Session.Names.{
  Stat, FileEntry, DateDir, dot_tlog, dot_bin, name_eq, is_session_file, is_hidden,
}
use udpproxy.Cleanup.{
  Item, is_old, is_expired, left_dir, retain_dir, retain_files, retain_dirs, retention_pass,
  items_of, items_of_files, items_of_dir, items_of_dirs, evict, max_bytes,
}

abbrev IsShown : List ℕ → Type 0
IsShown [] = Unit
IsShown (c ∷ cs) = c ≢ b'.'

-- "<stem>.tlog" or "<stem>.bin", not hidden.
abbrev IsLogName : List ℕ → Type 0
IsLogName name =
    (c : ℕ) × (cs : List ℕ) × (c ≢ b'.')
    × ((name ≡ c ∷ (cs ++ dot_tlog)) ⊎ (name ≡ c ∷ (cs ++ dot_bin)))

abbrev IsListed : FileEntry → Option (List FileEntry) → Type 0
IsListed e none = ⊥
IsListed e (some es) = Memᴰ e es

abbrev IsYoung : Option ℕ → ℕ → Stat → Type 0
IsYoung none now st = Unit
IsYoung (some cutoff) now st = now ≤ st.mtime + cutoff

-- A session file e of the date directory d that is there after the retention pass: it is not older
-- than the retention time, or cannot be removed.
pub record IsLeft (retention : Option ℕ) (now : ℕ) (dirs : List DateDir) (d : DateDir)
    (e : FileEntry) (st : Stat) : Type 0 where
  pub there : Memᴰ d dirs
  pub shown : IsShown d.name
  pub dir : d.is_dir ≡ true
  pub listed : IsListed e d.files
  pub named : IsLogName e.name
  pub has : e.stat ≡ some st
  pub left : IsYoung retention now st ⊎ (e.unlinks ≡ false)

abbrev pub item_for : DateDir → FileEntry → Stat → Item
item_for d e st = record {
  date_dir = d.name;
  name = e.name;
  size = st.size;
  mtime = st.mtime;
  unlinks = e.unlinks;
}

IsShown-is_hidden : (name : List ℕ) → IsShown name → is_hidden name ≡ false
unfolding is_hidden
IsShown-is_hidden [] h = refl
IsShown-is_hidden (c ∷ cs) h = ground (arith, h)

name_eq_refl : (xs : List ℕ) → name_eq xs xs ≡ true
unfolding name_eq
name_eq_refl [] = refl
name_eq_refl (x ∷ xs) = ground (arith, name_eq_refl xs)

tlog_name : (c : ℕ) (cs : List ℕ) → is_session_file (c ∷ (cs ++ dot_tlog)) ≡ true
unfolding is_session_file
tlog_name c cs =
    let n : length cs + 6 ≡ length (c ∷ (cs ++ dot_tlog)) =
      omega (arith, length-append cs dot_tlog) in
    let rest =
      drop_front (length (c ∷ (cs ++ dot_tlog)) - 5) (c ∷ cs) dot_tlog (omega (arith, n)) in
    let long : ltb 5 (length (c ∷ (cs ++ dot_tlog))) ≡ true = ground (arith, n) in
    rw (long, rest, name_eq_refl dot_tlog) refl

bin_name : (c : ℕ) (cs : List ℕ) → is_session_file (c ∷ (cs ++ dot_bin)) ≡ true
unfolding is_session_file
bin_name c cs =
    let n : length cs + 5 ≡ length (c ∷ (cs ++ dot_bin)) =
      omega (arith, length-append cs dot_bin) in
    let rest = drop_front (length (c ∷ (cs ++ dot_bin)) - 4) (c ∷ cs) dot_bin (omega (arith, n)) in
    let long : ltb 4 (length (c ∷ (cs ++ dot_bin))) ≡ true = ground (arith, n) in
    let same = name_eq_refl dot_bin in ground (arith, long, ap (λ r. name_eq r dot_bin) rest, same)

IsLogName-tests :
    (name : List ℕ) → IsLogName name → (is_hidden name ≡ false) × (is_session_file name ≡ true)
unfolding is_hidden
IsLogName-tests name (c, cs, ne, inl e) = rw e (ground (arith, ne), tlog_name c cs)
IsLogName-tests name (c, cs, ne, inr e) = rw e (ground (arith, ne), bin_name c cs)

-- Reading the directories, from the last on.
items_of_files-mem :
    (d : DateDir) (e : FileEntry) (st : Stat) (es : List FileEntry) (more : List Item)
    → IsLogName e.name
    → e.stat ≡ some st
    → Memᴰ e es
    → Memᴰ (item_for d e st) (items_of_files d es more)
unfolding items_of_files
items_of_files-mem d e st [] more named has m = elim m [ ]
items_of_files-mem d e st (f ∷ fs) more named has (Memᴰ.head same) =
    let t = IsLogName-tests e.name named in
    subst (λ k. Memᴰ (item_for d e st) (items_of_files d (k ∷ fs) more)) same
      (rw (t.0, t.1, has) (Memᴰ.head refl))
items_of_files-mem d e st (f ∷ fs) more named has (Memᴰ.tail m) =
    let later = items_of_files-mem d e st fs more named has m in
    elim (Bool-cases (is_hidden f.name)) [
      | inl h ↦ rw h later
      | inr h ↦ elim (Bool-cases (is_session_file f.name)) [
        | inr k ↦ rw (h, k) later
        | inl k ↦ elim (Option-cases f.stat) [
          | inl n ↦ rw (h, k, n) later
          | inr (x, n) ↦ rw (h, k, n) (Memᴰ.tail later)
        ]
      ]
    ]

items_of_files-more :
    (d : DateDir) (es : List FileEntry) (more : List Item) (it : Item)
    → Memᴰ it more
    → Memᴰ it (items_of_files d es more)
unfolding items_of_files
items_of_files-more d [] more it m = m
items_of_files-more d (f ∷ fs) more it m =
    let later = items_of_files-more d fs more it m in
    elim (Bool-cases (is_hidden f.name)) [
      | inl h ↦ rw h later
      | inr h ↦ elim (Bool-cases (is_session_file f.name)) [
        | inr k ↦ rw (h, k) later
        | inl k ↦ elim (Option-cases f.stat) [
          | inl n ↦ rw (h, k, n) later
          | inr (x, n) ↦ rw (h, k, n) (Memᴰ.tail later)
        ]
      ]
    ]

items_of_dir-more :
    (d : DateDir) (o : Option (List FileEntry)) (more : List Item) (it : Item)
    → Memᴰ it more
    → Memᴰ it (items_of_dir d o more)
unfolding items_of_dir
items_of_dir-more d none more it m = m
items_of_dir-more d (some es) more it m = items_of_files-more d es more it m

-- The branch of a directory that is not hidden.
chosen :
    {A : Type 0} (P : A → Type 0) (h k : Bool) (a b c : A)
    → h ≡ false
    → k ≡ true
    → P b
    → P (if h then a else if k then b else c)
chosen P h k a b c e f p = rw (e, f) p

items_of_dirs-mem :
    (d : DateDir) (e : FileEntry) (st : Stat) (es : List FileEntry) (ds : List DateDir)
    → IsShown d.name
    → d.is_dir ≡ true
    → d.files ≡ some es
    → IsLogName e.name
    → e.stat ≡ some st
    → Memᴰ e es
    → Memᴰ d ds
    → Memᴰ (item_for d e st) (items_of_dirs ds)
unfolding items_of_dirs items_of_dir
items_of_dirs-mem d e st es [] shown dir files named has m n = elim n [ ]
items_of_dirs-mem d e st es (x ∷ xs) shown dir files named has m (Memᴰ.head same) =
    subst (λ y. Memᴰ (item_for d e st) (items_of_dirs (y ∷ xs))) same
      (simp (IsShown-is_hidden d.name shown, dir, files)
        (items_of_files-mem d e st es (items_of_dirs xs) named has m))
items_of_dirs-mem d e st es (x ∷ xs) shown dir files named has m (Memᴰ.tail n) =
    let later = items_of_dirs-mem d e st es xs shown dir files named has m n in
    elim (Bool-cases (is_hidden x.name)) [
      | inl h ↦ rw h later
      | inr h ↦ elim (Bool-cases x.is_dir) [
        | inr k ↦ rw (h, k) later
        | inl k ↦
            chosen (Memᴰ (item_for d e st)) (is_hidden x.name) x.is_dir (items_of_dirs xs) _
              (items_of_dirs xs) h k (items_of_dir-more x x.files (items_of_dirs xs) _ later)
      ]
    ]

-- The retention pass leaves the file, in a directory of that name.
retain_files-mem :
    (now cutoff : ℕ) (e : FileEntry) (es : List FileEntry)
    → (is_expired now cutoff e && e.unlinks) ≡ false
    → Memᴰ e es
    → Memᴰ e (retain_files now cutoff es)
unfolding retain_files
retain_files-mem now cutoff e [] h m = elim m [ ]
retain_files-mem now cutoff e (f ∷ fs) h (Memᴰ.head same) =
    subst (λ k. Memᴰ e (retain_files now cutoff (k ∷ fs))) same (rw h (Memᴰ.head refl))
retain_files-mem now cutoff e (f ∷ fs) h (Memᴰ.tail m) =
    let later = retain_files-mem now cutoff e fs h m in
    elim (Bool-cases (is_expired now cutoff f && f.unlinks)) [
      | inl k ↦ rw k later
      | inr k ↦ rw k (Memᴰ.tail later)
    ]

left_dir-mem :
    (d : DateDir) (e : FileEntry) (es : List FileEntry) (rest : List DateDir)
    → Memᴰ e es
    → Memᴰ (record d { files = some es }) (left_dir d es rest)
unfolding left_dir
left_dir-mem d e [] rest m = elim m [ ]
left_dir-mem d e (f ∷ fs) rest m = Memᴰ.head refl

left_dir-more :
    (d x : DateDir) (es : List FileEntry) (rest : List DateDir)
    → Memᴰ x rest
    → Memᴰ x (left_dir d es rest)
unfolding left_dir
left_dir-more d x [] rest m = m
left_dir-more d x (f ∷ fs) rest m = Memᴰ.tail m

retain_dir-more :
    (now cutoff : ℕ) (d x : DateDir) (o : Option (List FileEntry)) (rest : List DateDir)
    → Memᴰ x rest
    → Memᴰ x (retain_dir now cutoff d o rest)
unfolding retain_dir
retain_dir-more now cutoff d x none rest m = Memᴰ.tail m
retain_dir-more now cutoff d x (some es) rest m =
    left_dir-more d x (retain_files now cutoff es) rest m

retain_dirs-mem :
    (now cutoff : ℕ) (d : DateDir) (e : FileEntry) (es : List FileEntry) (ds : List DateDir)
    → IsShown d.name
    → d.is_dir ≡ true
    → d.files ≡ some es
    → (is_expired now cutoff e && e.unlinks) ≡ false
    → Memᴰ e es
    → Memᴰ d ds
    → Memᴰ (record d { files = some (retain_files now cutoff es) }) (retain_dirs now cutoff ds)
unfolding retain_dirs retain_dir
retain_dirs-mem now cutoff d e es [] shown dir files stays m n = elim n [ ]
retain_dirs-mem now cutoff d e es (x ∷ xs) shown dir files stays m (Memᴰ.head same) =
    let kept = record d { files = some (retain_files now cutoff es) } in
    subst (λ y. Memᴰ kept (retain_dirs now cutoff (y ∷ xs))) same
      (chosen (Memᴰ kept) (is_hidden d.name) d.is_dir _ _ _ (IsShown-is_hidden d.name shown) dir (
        subst (λ o. Memᴰ kept (retain_dir now cutoff d o (retain_dirs now cutoff xs))) (sym files)
          (left_dir-mem d e (retain_files now cutoff es) (retain_dirs now cutoff xs)
            (retain_files-mem now cutoff e es stays m))))
retain_dirs-mem now cutoff d e es (x ∷ xs) shown dir files stays m (Memᴰ.tail n) =
    let later = retain_dirs-mem now cutoff d e es xs shown dir files stays m n in
    elim (Bool-cases (is_hidden x.name)) [
      | inl h ↦ rw h (Memᴰ.tail later)
      | inr h ↦ elim (Bool-cases x.is_dir) [
        | inr k ↦ rw (h, k) (Memᴰ.tail later)
        | inl k ↦
            chosen (Memᴰ (record d { files = some (retain_files now cutoff es) }))
              (is_hidden x.name) x.is_dir _ _ _ h k (retain_dir-more now cutoff x _ x.files _ later)
      ]
    ]

stays_for :
    (now cutoff : ℕ) (e : FileEntry) (st : Stat)
    → e.stat ≡ some st
    → (now ≤ st.mtime + cutoff) ⊎ (e.unlinks ≡ false)
    → (is_expired now cutoff e && e.unlinks) ≡ false
unfolding is_expired is_old
stays_for now cutoff e st has h = ground (arith, has, h)

listed_in :
    (e : FileEntry) (o : Option (List FileEntry))
    → IsListed e o
    → (es : List FileEntry) × (o ≡ some es) × Memᴰ e es
listed_in e none h = absurd h
listed_in e (some es) h = (es, refl, h)

pub items_of-mem :
    (retention : Option ℕ) (now : ℕ) (dirs : List DateDir) (d : DateDir) (e : FileEntry) (st : Stat)
    → IsLeft retention now dirs d e st
    → Memᴰ (item_for d e st) (items_of (retention_pass retention now (some dirs)))
unfolding items_of retention_pass
items_of-mem none now dirs d e st v =
    let (es, files, m) = listed_in e d.files v.listed in
    items_of_dirs-mem d e st es dirs v.shown v.dir files v.named v.has m v.there
items_of-mem (some cutoff) now dirs d e st v =
    let (es, files, m) = listed_in e d.files v.listed in
    let stays = stays_for now cutoff e st v.has v.left in
    let kept = retain_files now cutoff es in
    items_of_dirs-mem (record d { files = some (retain_files now cutoff es) }) e st
      (retain_files now cutoff es) (retain_dirs now cutoff dirs) v.shown v.dir refl v.named v.has
      (retain_files-mem now cutoff e es stays m)
      (retain_dirs-mem now cutoff d e es dirs v.shown v.dir files stays m v.there)

-- A file of the list is kept or removed.
pub evict-mem :
    (it : Item) (total : ℕ) (its : List Item)
    → Memᴰ it its
    → Memᴰ it (evict total its).kept ⊎ Memᴰ it (evict total its).removed
unfolding evict
evict-mem it total [] m = elim m [ ]
evict-mem it total (x ∷ xs) m = elim (Bool-cases (leb total max_bytes)) [
  | inl f ↦ rw f (inl m)
  | inr f ↦ elim (Bool-cases x.unlinks) [
    | inl u ↦
        simp (f, u)
          (elim m [
            | Memᴰ.head e ↦ inr (Memᴰ.head e)
            | Memᴰ.tail n ↦ elim (evict-mem it (total - x.size) xs n) [
              | inl k ↦ inl k
              | inr k ↦ inr (Memᴰ.tail k)
            ]
          ])
    | inr u ↦
        simp (f, u)
          (elim m [
            | Memᴰ.head e ↦ inl (Memᴰ.head e)
            | Memᴰ.tail n ↦ elim (evict-mem it total xs n) [
              | inl k ↦ inl (Memᴰ.tail k)
              | inr k ↦ inr k
            ]
          ])
  ]
]

pub perm-mem : (it : Item) (xs ys : List Item) → Permᴰ xs ys → Memᴰ it ys → Memᴰ it xs
perm-mem it xs ys Permᴰ.nil m = m
perm-mem it (a ∷ xs) (b ∷ ys) (Permᴰ.cons e p) (Memᴰ.head h) = Memᴰ.head (h ∙ sym e)
perm-mem it (a ∷ xs) (b ∷ ys) (Permᴰ.cons e p) (Memᴰ.tail m) = Memᴰ.tail (perm-mem it xs ys p m)
perm-mem it (a ∷ b ∷ xs) (c ∷ d ∷ ys) (Permᴰ.swap e f) (Memᴰ.head h) =
    Memᴰ.tail (Memᴰ.head (h ∙ sym f))
perm-mem it (a ∷ b ∷ xs) (c ∷ d ∷ ys) (Permᴰ.swap e f) (Memᴰ.tail (Memᴰ.head h)) =
    Memᴰ.head (h ∙ sym e)
perm-mem it (a ∷ b ∷ xs) (c ∷ d ∷ ys) (Permᴰ.swap e f) (Memᴰ.tail (Memᴰ.tail m)) =
    Memᴰ.tail (Memᴰ.tail m)
perm-mem it xs zs (Permᴰ.trans p q) m = perm-mem it xs _ p (perm-mem it _ zs q m)
