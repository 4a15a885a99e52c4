-- ===== src/Session/Number/Tests.antt =====
-- Session numbers on a concrete directory.
use udpproxy.Prelude.{ℕ, ◌-◌, ◌^◌, ◌<◌, ◌≡◌, refl, false, some, List, [], ◌∷◌, arith}
use mathlib.Core.List.{Memᴰ}
use udpproxy.Session.Number.{
  scan_session, highest_session, next_session_n, session_name, starts_digit, match_word,
  signed_digits, skip_spaces, unsigned_digits, is_digit, is_space, digits_value, decimal,
  negated_digits,
}
use udpproxy.Session.Number.Fresh.{session_name_fresh}

abbrev bin_suffix : List ℕ
bin_suffix = b'.' ∷ b'b' ∷ b'i' ∷ b'n' ∷ []

abbrev today : List (List ℕ)
today = session_name 2 bin_suffix ∷ session_name 12 bin_suffix ∷ (b'.' ∷ []) ∷ []

bin_stops : starts_digit bin_suffix ≡ false
unfolding starts_digit is_digit
bin_stops = refl

today_highest : highest_session 0 today ≡ 12
unfolding highest_session scan_session match_word signed_digits skip_spaces unsigned_digits
    starts_digit is_digit is_space digits_value session_name decimal negated_digits
today_highest = refl

today_room : highest_session 0 today < 2 ^ 32 - 1
today_room = omega (arith, today_highest)

session_name_fresh_example : ¬ Memᴰ (session_name (next_session_n (some today)) bin_suffix) today
session_name_fresh_example = session_name_fresh today today_room bin_suffix bin_stops
