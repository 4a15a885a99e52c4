-- ===== src/Link/Signing/Stored.antt =====
-- What the operations on the signing key store, and what a link reads from it later.
use udpproxy.Prelude.{
  ℕ, ◌+◌, ◌^◌, ◌≤◌, ◌<◌, min, max, ◌≡◌, refl, sym, ap, ◌∙◌, subst, ◌⊎◌, inl, inr, Bool, true, false,
  not, ◌==◌, ◌&&◌, Option, some, List, [], ◌∷◌, arith, ltb, if◌then◌else◌, Bool-cases, Option-cases,
  is_some, length,
}
use udpproxy.Database.Tdb.{Tdb}
use udpproxy.Database.KeyEntry.{KeyEntry, IsEntry, key_magic}
use udpproxy.Database.Keys.{db_load_key, db_save_key}
use udpproxy.Database.Keys.Laws.{db_load_key-save, db_load_key-magic}
use mathlib.Core.List.{Memᴰ}
use udpproxy.Message.{SetupSigning}
use udpproxy.Link.{Link}
use udpproxy.Link.Clock.{now_mavlink}
use udpproxy.Link.Signing.{
  all_zero, start_timestamp, use_key, load_signing_key, saved_timestamp, save_signing_timestamp,
  handle_setup_signing, key_of, saved,
}

now_mavlink-bound : (now : ℕ) → now_mavlink now < 2 ^ 64
unfolding now_mavlink
now_mavlink-bound now = ground arith

-- The saved timestamp is not before the entry's, and not after the later of it and now.
saved_timestamp-bound :
    (now best : ℕ) (ls : List Link)
    → (best ≤ saved_timestamp now best ls)
      × (saved_timestamp now best ls ≤ max best (now_mavlink now))
unfolding saved_timestamp
saved_timestamp-bound now best [] = (omega arith, omega arith)
saved_timestamp-bound now best (l ∷ ls) =
    let v = min l.signing.timestamp (now_mavlink now) in
    let rest = saved_timestamp-bound now (if l.attached && ltb best v then v else best) ls in
    ground (arith, rest)

-- Nor before that of a link with signatures, if that is not after now.
saved_timestamp-link :
    (now best : ℕ) (ls : List Link) (l : Link)
    → Memᴰ l ls
    → l.attached ≡ true
    → min l.signing.timestamp (now_mavlink now) ≤ saved_timestamp now best ls
unfolding saved_timestamp
saved_timestamp-link now best [] l m on = elim m [ ]
saved_timestamp-link now best (k ∷ ls) l (Memᴰ.head e) on =
    let v = min k.signing.timestamp (now_mavlink now) in
    let next = if k.attached && ltb best v then v else best in
    let rest = (saved_timestamp-bound now next ls).0 in
    let same = ap (λ i. i.signing.timestamp) e in
    let on' = sym (ap (λ i. i.attached) e) ∙ on in ground (arith, rest, same, on')
saved_timestamp-link now best (k ∷ ls) l (Memᴰ.tail m) on =
    let v = min k.signing.timestamp (now_mavlink now) in
    saved_timestamp-link now (if k.attached && ltb best v then v else best) ls l m on

start_timestamp-bound :
    (stamp now : ℕ)
    → stamp + 1_500_000 < 2 ^ 64
    → (stamp + 1_500_000 ≤ start_timestamp stamp now)
      × (now_mavlink now ≤ start_timestamp stamp now)
      × (start_timestamp stamp now ≤ max (stamp + 1_500_000) (now_mavlink now))
unfolding start_timestamp
start_timestamp-bound stamp now h = let b = now_mavlink-bound now in ground (arith, h, b)

-- Another timestamp and another key, in range.
rekeyed-IsEntry :
    (ke : KeyEntry) (t : ℕ) (secret : List ℕ)
    → IsEntry ke
    → t < 2 ^ 64
    → length secret ≡ 32
    → IsEntry (record ke { timestamp = t; secret_key = secret })
rekeyed-IsEntry ke t secret v h n = record {
  magic_word = v.magic_word;
  timestamp_word = h;
  secret_size = n;
  port1_word = v.port1_word;
  connections_word = v.connections_word;
  count1_word = v.count1_word;
  count2_word = v.count2_word;
  name_size = v.name_size;
  flags_word = v.flags_word;
  retention_size = v.retention_size;
  fc_sysid_word = v.fc_sysid_word;
  reserved_size = v.reserved_size;
}

all_zero-mem : (b : ℕ) (bs : List ℕ) → Memᴰ b bs → 0 < b → all_zero bs ≡ false
unfolding all_zero
all_zero-mem b [] m h = elim m [ ]
all_zero-mem b (c ∷ cs) (Memᴰ.head e) h = ground (arith, e, h)
all_zero-mem b (c ∷ cs) (Memᴰ.tail m) h = ground (arith, all_zero-mem b cs m h)

-- Where the timestamp or the key is not zero, signing is not disabled.
attached_lively :
    (stamp : ℕ) (secret : List ℕ)
    → (0 < stamp) ⊎ ((b : ℕ) × Memᴰ b secret × (0 < b))
    → not (stamp == 0 && all_zero secret) ≡ true
attached_lively stamp secret (inl h) = ground (arith, h)
attached_lively stamp secret (inr (b, m, h)) = ground (arith, all_zero-mem b secret m h)

module _ (tdb : Tdb) where
  open tdb use {Db}

  -- The entry that stands in the database after a save of it that succeeds.
  reload :
      (db : Db) (allocates : Bool) (id : ℕ) (ke : KeyEntry)
      → IsEntry ke
      → ke.magic ≡ key_magic
      → is_some (db_save_key tdb db allocates id ke) ≡ true
      → db_load_key tdb (saved tdb db (db_save_key tdb db allocates id ke)) id ≡ some ke
  unfolding saved
  reload db allocates id ke v m works = elim (Option-cases (db_save_key tdb db allocates id ke)) [
    | inl e ↦ absurd (ground (arith, e, works))
    | inr (db', e) ↦ rw e (db_load_key-save tdb db db' allocates id ke v e m)
  ]

  -- What save_signing_timestamp leaves in the database is the entry with the saved timestamp.
  stamp_stored :
      (db : Db) (allocates : Bool) (now : ℕ) (key_id : Option ℕ) (ls : List Link) (ke : KeyEntry)
      → db_load_key tdb db (key_of key_id) ≡ some ke
      → IsEntry ke
      → ((e : KeyEntry) → is_some (db_save_key tdb db allocates (key_of key_id) e) ≡ true)
      → db_load_key tdb (save_signing_timestamp tdb db true allocates now key_id ls) (key_of key_id)
        ≡ some (record ke { timestamp = saved_timestamp now ke.timestamp ls })
  unfolding save_signing_timestamp
  stamp_stored db allocates now key_id ls ke h v works =
      let t = saved_timestamp now ke.timestamp ls in
      let b = saved_timestamp-bound now ke.timestamp ls in
      let c = now_mavlink-bound now in
      let m = db_load_key-magic tdb db (key_of key_id) ke h in
      let small : saved_timestamp now ke.timestamp ls < 2 ^ 64 =
        let w = v.timestamp_word in ground (arith, b, c, w) in
      let e = record ke { timestamp = t } in
      elim (Bool-cases (ltb ke.timestamp t)) [
        | inl more ↦
            rw (h, more)
              (reload db allocates (key_of key_id) e
                (rekeyed-IsEntry ke (saved_timestamp now ke.timestamp ls) ke.secret_key v small
                  v.secret_size)
                m (works e))
        | inr same ↦
            let eq : ke.timestamp ≡ saved_timestamp now ke.timestamp ls = ground (arith, b, same) in
            rw (h, same, h) (ap (λ i. some (record ke { timestamp = i })) eq)
      ]

  load_signing_key-found :
      (db : Db) (now : ℕ) (l : Link) (ke : KeyEntry)
      → db_load_key tdb db (key_of l.key_id) ≡ some ke
      → load_signing_key tdb db now l ≡ use_key now l ke
  unfolding load_signing_key
  load_signing_key-found db now l ke h = rw (load_signing_key, h) refl

  -- A key's timestamp through a save and a later load, for an entry of keys.tdb that loads, where the
  -- database opens and saves, and clocks and timestamps stay 15 seconds below 2^64. For each link that
  -- has signatures at the save, the link that loads the key later starts at least 15 seconds after
  -- the earlier of its timestamp and the time of the save, and not before its own time; and it starts
  -- at most 15 seconds after the later of the stored timestamp and the time of the save, unless its
  -- own time is later.
  pub load_signing_key-save_signing_timestamp :
      (db : Db) (allocates : Bool) (now later : ℕ) (key_id : Option ℕ) (ls : List Link)
      (l fresh : Link) (ke : KeyEntry)
      → db_load_key tdb db (key_of key_id) ≡ some ke
      → IsEntry ke
      → ((e : KeyEntry) → is_some (db_save_key tdb db allocates (key_of key_id) e) ≡ true)
      → ke.timestamp + 1_500_000 < 2 ^ 64
      → now_mavlink now + 1_500_000 < 2 ^ 64
      → Memᴰ l ls
      → l.attached ≡ true
      → fresh.key_id ≡ key_id
      → let db' = save_signing_timestamp tdb db true allocates now key_id ls in
        let t = (load_signing_key tdb db' later fresh).signing.timestamp in
        (min l.signing.timestamp (now_mavlink now) + 1_500_000 ≤ t)
        × (now_mavlink later ≤ t)
        × (t ≤ max (max ke.timestamp (now_mavlink now) + 1_500_000) (now_mavlink later))
  unfolding use_key
  load_signing_key-save_signing_timestamp db allocates now later key_id ls l fresh ke h v works hk
        hn m on same =
      let t = saved_timestamp now ke.timestamp ls in
      let db' = save_signing_timestamp tdb db true allocates now key_id ls in
      let found = stamp_stored db allocates now key_id ls ke h v works in
      let found' =
        subst (λ i. db_load_key tdb db' (key_of i) ≡ some (record ke { timestamp = t })) (sym same)
          found in
      let b = saved_timestamp-bound now ke.timestamp ls in
      let low = saved_timestamp-link now ke.timestamp ls l m on in
      let s = start_timestamp-bound t later (ground (arith, b, hk, hn)) in
      rw (load_signing_key-found db' later fresh (record ke { timestamp = t }) found')
        (ground (arith, b, low, s))

  -- SETUP_SIGNING on a link whose key loads, where the database opens and saves, the packet's fields
  -- have their C sizes, and its timestamp or a byte of its key is not 0: the entry has the packet's
  -- timestamp and secret key and is otherwise as it was; the link has signing attached, signs what it
  -- sends and does so with that key, starts at least 15 seconds after the packet's timestamp, and its
  -- peer must prove itself again.
  pub handle_setup_signing_lem :
      (db : Db) (allocates : Bool) (now : ℕ) (packet : SetupSigning) (l : Link) (ke : KeyEntry)
      → db_load_key tdb db (key_of l.key_id) ≡ some ke
      → IsEntry ke
      → length packet.secret_key ≡ 32
      → packet.initial_timestamp + 1_500_000 < 2 ^ 64
      → (0 < packet.initial_timestamp) ⊎ ((b : ℕ) × Memᴰ b packet.secret_key × (0 < b))
      → ((e : KeyEntry) → is_some (db_save_key tdb db allocates (key_of l.key_id) e) ≡ true)
      → let r = handle_setup_signing tdb db true allocates now packet l in
        (db_load_key tdb r.0 (key_of l.key_id)
          ≡ some
              (record ke { timestamp = packet.initial_timestamp; secret_key = packet.secret_key }))
        × (r.1.attached ≡ true)
        × (r.1.signing.sign_outgoing ≡ true)
        × (r.1.signing.secret_key ≡ packet.secret_key)
        × (packet.initial_timestamp + 1_500_000 ≤ r.1.signing.timestamp)
        × (r.1.key_loaded ≡ true)
        × (r.1.got_signed_packet ≡ false)
  unfolding handle_setup_signing use_key
  handle_setup_signing_lem db allocates now packet l ke h v n hp lively works =
      let e = record ke { timestamp = packet.initial_timestamp; secret_key = packet.secret_key } in
      let db' = saved tdb db (db_save_key tdb db allocates (key_of l.key_id) e) in
      let m = db_load_key-magic tdb db (key_of l.key_id) ke h in
      let found =
        reload db allocates (key_of l.key_id) e
          (rekeyed-IsEntry ke packet.initial_timestamp packet.secret_key v (omega (arith, hp)) n) m
          (works e) in
      let s = start_timestamp-bound packet.initial_timestamp now hp in
      let on = attached_lively packet.initial_timestamp packet.secret_key lively in
      rw (h, load_signing_key-found db' now (record l { got_signed_packet = false }) e found)
        (found, on, refl, refl, s.0, refl, refl)
