-- ===== src/Link/Clock.antt =====
-- The clock of signatures in mavlink.cpp: units of 10 microseconds since 2015, as uint64_t. Times of
-- the system are in microseconds.
use udpproxy.Prelude.{ℕ, ◌-◌, ◌*◌, ◌/◌, ◌%◌, ◌^◌, ltb, if◌then◌else◌}

abbrev pub epoch_offset : ℕ
epoch_offset = 1_420_070_400

-- now_mavlink in load_signing_key and save_signing_timestamp.
unfoldable pub now_mavlink : ℕ → ℕ
now_mavlink now =
    if ltb (epoch_offset * 1_000_000) now
    then (now - epoch_offset * 1_000_000) / 1_000_000 * 100 * 1000 % 2 ^ 64
    else 0

-- signing_timestamp in update_signing_timestamp.
unfoldable pub wall_timestamp : ℕ → ℕ
wall_timestamp now =
    let seconds = now / 1_000_000 in
    (if ltb epoch_offset seconds then seconds - epoch_offset else seconds) * (100 * 1000) % 2 ^ 64
