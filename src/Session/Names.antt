-- ===== src/Session/Names.antt =====
-- The predicate `is_session_file` of cleanup.cpp and binlog.cpp, and the directory tree that both
-- walk.
use udpproxy.Prelude.{
  ℕ, ◌-◌, Bool, true, false, ◌&&◌, ◌||◌, Option, List, [], ◌∷◌, ltb, ◌==◌, length, drop,
}

-- `strcmp(a, b) == 0`.
unfoldable pub name_eq : List ℕ → List ℕ → Bool
name_eq [] [] = true
name_eq [] (y ∷ ys) = false
name_eq (x ∷ xs) [] = false
name_eq (x ∷ xs) (y ∷ ys) = x == y && name_eq xs ys

abbrev pub dot_tlog : List ℕ
dot_tlog = b'.' ∷ b't' ∷ b'l' ∷ b'o' ∷ b'g' ∷ []

abbrev pub dot_bin : List ℕ
dot_bin = b'.' ∷ b'b' ∷ b'i' ∷ b'n' ∷ []

unfoldable pub is_session_file : List ℕ → Bool
unfolding name_eq
is_session_file name =
    let n = length name in
    (ltb 5 n && name_eq (drop (n - 5) name) dot_tlog)
    || (ltb 4 n && name_eq (drop (n - 4) name) dot_bin)

-- `name[0] == '.'`.
unfoldable pub is_hidden : List ℕ → Bool
is_hidden [] = false
is_hidden (c ∷ cs) = c == b'.'

-- What stat() gives of a file: its size, its modification time in seconds, and its identity
-- (st_dev and st_ino as one number).
pub record Stat : Type 0 where
  pub size : ℕ
  pub mtime : ℕ
  pub inode : ℕ

-- A directory entry, what stat() returns for it, and whether unlink() succeeds on it.
pub record FileEntry : Type 0 where
  pub name : List ℕ
  pub stat : Option Stat
  pub unlinks : Bool

-- An entry of logs/<port2>/: whether stat() calls it a directory, and what opendir() lists.
pub record DateDir : Type 0 where
  pub name : List ℕ
  pub is_dir : Bool
  pub files : Option (List FileEntry)

-- logs/<port2>/ itself; `none` where opendir() fails.
abbrev pub Tree : Type 0
Tree = Option (List DateDir)
