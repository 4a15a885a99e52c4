-- ===== src/Binlog/Writer.antt =====
-- The state of BinlogWriter and its file operations: open, refresh_other_sessions_bytes, close.
-- Times are in microseconds where the source has seconds in a double. The outcomes of system calls
-- are arguments. An open file is its bytes, its size, and its identity (st_dev and st_ino).
use udpproxy.Prelude.{
  ℕ, ◌+◌, ◌-◌, max, Bool, true, false, ◌&&◌, Option, none, some, List, [], ◌∷◌, ltb, leb, ◌==◌,
  if◌then◌else◌, length, get_or,
}
use udpproxy.Session.Names.{Stat, FileEntry, DateDir, Tree, is_session_file, is_hidden}

-- `fp`: what was written at each offset (holes read as 0).
pub record LogFile : Type 0 where
  pub session : ℕ
  pub inode : ℕ
  pub content : ℕ → ℕ
  pub size : ℕ

-- fseeko() to `offset`, then fwrite() of these bytes: the file grows to hold them.
unfoldable pub write_at : LogFile → ℕ → List ℕ → LogFile
write_at f offset bytes = record f {
  content = λ i.
      if leb offset i && ltb i (offset + length bytes)
      then get_or bytes (i - offset) 0
      else f.content i;
  size = max f.size (offset + length bytes);
}

pub record Nack : Type 0 where
  pub seqno : ℕ
  pub first_seen : ℕ
  pub last_sent : ℕ  -- 0: never sent

pub record Writer : Type 0 where
  pub fp : Option LogFile
  pub seen_bitmap : List ℕ
  pub highest_seen : ℕ
  pub any_block_seen : Bool
  pub last_start_sent : ℕ
  pub target_system : ℕ
  pub target_component : ℕ
  pub pending_acks : List ℕ
  pub nack_state : List Nack  -- the map's entries, in the order of its iteration
  pub port2 : ℕ
  pub base_dir : List ℕ
  pub current_file_size : ℕ
  pub other_sessions_bytes : ℕ
  pub writes_since_quota_refresh : ℕ
  pub fc_sysid_filter : ℕ
  pub last_system_time_boot_ms : ℕ
  pub pending_session_n : ℕ

-- The member initialisers of binlog.h.
unfoldable pub new_writer : Writer
new_writer = record {
  fp = none;
  seen_bitmap = [];
  highest_seen = 0;
  any_block_seen = false;
  last_start_sent = 0;
  target_system = 0;
  target_component = 0;
  pending_acks = [];
  nack_state = [];
  port2 = 0;
  base_dir = [];
  current_file_size = 0;
  other_sessions_bytes = 0;
  writes_since_quota_refresh = 0;
  fc_sysid_filter = 0;
  last_system_time_boot_ms = 0;
  pending_session_n = 0;
}

-- `fp != nullptr` and the entry is the file that is open.
is_own : Option LogFile → Stat → Bool
is_own none st = false
is_own (some f) st = f.inode == st.inode

other_bytes : Option LogFile → Option Stat → ℕ
unfolding is_own
other_bytes fp none = 0
other_bytes fp (some st) = if is_own fp st then 0 else st.size

-- The inner readdir loop: session files other than the open one, which stat() finds.
pub sum_files : Option LogFile → List FileEntry → ℕ
sum_files fp [] = 0
sum_files fp (e ∷ es) =
    (if is_session_file e.name then other_bytes fp e.stat else 0) + sum_files fp es

sum_opened : Option LogFile → Option (List FileEntry) → ℕ
sum_opened fp none = 0
sum_opened fp (some files) = sum_files fp files

-- The outer loop, over the date directories.
pub sum_dirs : Option LogFile → List DateDir → ℕ
unfolding sum_opened
sum_dirs fp [] = 0
sum_dirs fp (d ∷ ds) = (if is_hidden d.name then 0 else sum_opened fp d.files) + sum_dirs fp ds

pub sum_tree : Option LogFile → Tree → ℕ
sum_tree fp none = 0
sum_tree fp (some dirs) = sum_dirs fp dirs

-- `base_dir_.empty()`.
abbrev pub is_empty : List ℕ → Bool
is_empty [] = true
is_empty (c ∷ cs) = false

unfoldable pub refresh_other_sessions_bytes : Writer → Tree → Writer
refresh_other_sessions_bytes w tree = record w {
  other_sessions_bytes =
      if is_empty w.base_dir then 0 else if w.port2 == 0 then 0 else sum_tree w.fp tree;
}

-- What the system answers during one call: mkpath_0700, fopen (the new file's identity),
-- the directory tree at the open and at the later refresh, fseeko, fwrite, gettimeofday.
pub record Host : Type 0 where
  pub mkdir_ok : Bool
  pub fopen_inode : Option ℕ
  pub tree_at_open : Tree
  pub seek_ok : Bool
  pub wrote : ℕ
  pub tree : Tree
  pub now : ℕ

abbrev pub logs_dir : List ℕ
logs_dir = b'l' ∷ b'o' ∷ b'g' ∷ b's' ∷ []

-- fopen(path, "wb+") gives an empty file.
opened : Writer → ℕ → ℕ → ℕ → Host → Writer
unfolding refresh_other_sessions_bytes
opened w port2 session_n inode host = record located { writes_since_quota_refresh = 0 }
  where
    located : Writer
    located =
        refresh_other_sessions_bytes
          (record w {
            fp = some (record { session = session_n; inode = inode; content = λ i. 0; size = 0 });
            port2 = port2;
            base_dir = logs_dir;
            current_file_size = 0;
          })
          host.tree_at_open

-- `none` where the source returns false.
unfoldable pub open_log : Writer → ℕ → ℕ → Host → Option Writer
unfolding opened
open_log w port2 session_n host = elim w.fp [
  | some f ↦ some w
  | none ↦
      if host.mkdir_ok
      then elim host.fopen_inode [
        | none ↦ none
        | some inode ↦ some (opened w port2 session_n inode host)
      ]
      else none
]

unfoldable pub close_log : Writer → Writer
close_log w = record w { fp = none }
