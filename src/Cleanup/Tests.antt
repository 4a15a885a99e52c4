-- ===== src/Cleanup/Tests.antt =====
-- The cleanup of a concrete directory.
use udpproxy.Prelude.{ℕ, ◌≡◌, refl, sym, subst, ◌⊎◌, inl, inr, true, some, List, [], ◌∷◌, arith}
use mathlib.Core.List.{Memᴰ}
use mathlib.Core.List.Permᴰ
use udpproxy.Session.Names.{FileEntry, DateDir, is_session_file, is_hidden, dot_bin}
use udpproxy.Cleanup.{
  Item, is_older, is_expired, retain_files, retain_dirs, retention_pass, items_of, items_of_files,
  items_of_dirs, cleanup_for_port2,
}
use udpproxy.Cleanup.Quota.{IsWithin, IsOrdered, cleanup_for_port2-IsWithin}

abbrev log_file : ℕ → ℕ → ℕ → FileEntry
log_file digit size mtime = record {
  name = digit ∷ dot_bin;
  stat = some (record { size = size; mtime = mtime; inode = digit });
  unlinks = true;
}

-- Three logs of 600 MiB, the first of them from before the retention time.
abbrev date_dir : DateDir
date_dir = record {
  name = b'd' ∷ [];
  is_dir = true;
  files = some (
      log_file b'1' 629_145_600 100
      ∷ log_file b'2' 629_145_600 900_000
      ∷ log_file b'3' 629_145_600 950_000
      ∷ []);
}

abbrev directory : List DateDir
directory = date_dir ∷ []

abbrev log_item : ℕ → ℕ → Item
log_item digit mtime = record {
  date_dir = b'd' ∷ [];
  name = digit ∷ dot_bin;
  size = 629_145_600;
  mtime = mtime;
  unlinks = true;
}

directory_items :
    items_of (retention_pass (some 864_000) 1_000_000 (some directory))
    ≡ log_item b'2' 900_000 ∷ log_item b'3' 950_000 ∷ []
unfolding items_of retention_pass items_of_dirs retain_dirs is_hidden retain_files is_expired
    is_session_file items_of_files
directory_items = refl

items-IsOrdered :
    IsOrdered is_older (items_of (retention_pass (some 864_000) 1_000_000 (some directory)))
unfolding is_older
items-IsOrdered = subst (IsOrdered is_older) (sym directory_items) ((refl, tt), (tt, tt))

-- The files happen to be in order.
cleanup_for_port2-IsWithin_example :
    let r = cleanup_for_port2 (λ less items. items) (some 864_000) 1_000_000 (some directory) in
    IsWithin 0 r × (Memᴰ (log_item b'2' 900_000) r.kept ⊎ Memᴰ (log_item b'2' 900_000) r.removed)
cleanup_for_port2-IsWithin_example =
    cleanup_for_port2-IsWithin (λ less items. items) (some 864_000) 1_000_000 directory date_dir
      (log_file b'2' 629_145_600 900_000)
      (record { size = 629_145_600; mtime = 900_000; inode = b'2' }) (Permᴰ.refl _) items-IsOrdered
      (record {
        there = Memᴰ.head refl;
        shown = λ e. omega (arith, e);
        dir = refl;
        listed = Memᴰ.tail (Memᴰ.head refl);
        named = (b'2', [], (λ e. omega (arith, e)), inr refl);
        has = refl;
        left = inl (omega arith);
      })
