-- ===== src/Database/KeyEntry.antt =====
-- struct KeyEntry of keydb.h, and its bytes.
pub mod RoundTrip
use udpproxy.Prelude.{
  ℕ, ◌-◌, ◌^◌, ◌<◌, ◌≡◌, List, ◌++◌, ltb, if◌then◌else◌, length, take, replicate,
}
use udpproxy.Database.Bytes.{le_bytes, of_le, field}

pub record KeyEntry : Type 0 where
  pub magic : ℕ
  pub timestamp : ℕ
  pub secret_key : List ℕ
  pub port1 : ℕ  -- the bit pattern of an int
  pub connections : ℕ
  pub count1 : ℕ
  pub count2 : ℕ
  pub name : List ℕ
  pub flags : ℕ
  pub log_retention_days : List ℕ  -- the bytes of a float
  pub fc_sysid : ℕ
  pub reserved : List ℕ

abbrev pub key_magic : ℕ
key_magic = 0x6b73e867a72cdd1f

abbrev pub keyentry_min_size : ℕ
keyentry_min_size = 96

-- sizeof(KeyEntry).
abbrev pub keyentry_size : ℕ
keyentry_size = 168

-- The memory of the struct, read field by field.
unfoldable pub read_entry : List ℕ → KeyEntry
read_entry bs = record {
  magic = of_le (field bs 0 8);
  timestamp = of_le (field bs 8 8);
  secret_key = field bs 16 32;
  port1 = of_le (field bs 48 4);
  connections = of_le (field bs 52 4);
  count1 = of_le (field bs 56 4);
  count2 = of_le (field bs 60 4);
  name = field bs 64 32;
  flags = of_le (field bs 96 4);
  log_retention_days = field bs 100 4;
  fc_sysid = of_le (field bs 104 4);
  reserved = field bs 108 60;
}

-- The memory of the struct, written field by field.
unfoldable pub write_entry : KeyEntry → List ℕ
write_entry e =
    le_bytes 8 e.magic
    ++ (le_bytes 8 e.timestamp
        ++ (e.secret_key
            ++ (le_bytes 4 e.port1
                ++ (le_bytes 4 e.connections
                    ++ (le_bytes 4 e.count1
                        ++ (le_bytes 4 e.count2
                            ++ (e.name
                                ++ (le_bytes 4 e.flags
                                    ++ (e.log_retention_days
                                        ++ (le_bytes 4 e.fc_sysid ++ e.reserved))))))))))

-- memset to 0, then memcpy of as many bytes as the record and the struct both have.
unfoldable pub load_entry : List ℕ → KeyEntry
load_entry bs =
    let copy = if ltb (length bs) keyentry_size then length bs else keyentry_size in
    read_entry (take copy bs ++ replicate (keyentry_size - copy) 0)

-- The sizes and ranges of the C types.
pub record IsEntry (e : KeyEntry) : Type 0 where
  pub magic_word : e.magic < 256 ^ 8
  pub timestamp_word : e.timestamp < 256 ^ 8
  pub secret_size : length e.secret_key ≡ 32
  pub port1_word : e.port1 < 256 ^ 4
  pub connections_word : e.connections < 256 ^ 4
  pub count1_word : e.count1 < 256 ^ 4
  pub count2_word : e.count2 < 256 ^ 4
  pub name_size : length e.name ≡ 32
  pub flags_word : e.flags < 256 ^ 4
  pub retention_size : length e.log_retention_days ≡ 4
  pub fc_sysid_word : e.fc_sysid < 256 ^ 4
  pub reserved_size : length e.reserved ≡ 60
