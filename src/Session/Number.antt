-- ===== src/Session/Number.antt =====
-- next_session_n of session.cpp: sscanf over the names of the day's directory, and the file name
-- that TlogWriter::open and BinlogWriter::open build from the number.
mod Fresh
mod Tests
use udpproxy.Prelude.{
  ℕ, zero, suc, ◌+◌, ◌-◌, ◌*◌, ◌/◌, ◌%◌, ◌^◌, min, Bool, false, ◌&&◌, ◌||◌, Option, none, some,
  List, [], ◌∷◌, ◌++◌, ltb, leb, ◌==◌, if◌then◌else◌,
}

abbrev pub session_word : List ℕ
session_word = b's' ∷ b'e' ∷ b's' ∷ b's' ∷ b'i' ∷ b'o' ∷ b'n' ∷ []

pub is_digit : ℕ → Bool
is_digit c = leb 48 c && leb c 57

-- The bytes that isspace() accepts, which %u skips.
pub is_space : ℕ → Bool
is_space c = c == 32 || (leb 9 c && leb c 13)

-- A literal of the sscanf format: it must stand there byte by byte.
pub match_word : List ℕ → List ℕ → Option (List ℕ)
match_word [] cs = some cs
match_word (w ∷ ws) [] = none
match_word (w ∷ ws) (c ∷ cs) = if w == c then match_word ws cs else none

pub skip_spaces : List ℕ → List ℕ
skip_spaces [] = []
skip_spaces (c ∷ cs) = if is_space c then skip_spaces cs else c ∷ cs

-- The value of a run of digits, after `acc`.
pub digits_value : ℕ → List ℕ → ℕ
digits_value acc [] = acc
digits_value acc (c ∷ cs) =
    let rest = digits_value (acc * 10 + (c - 48)) cs in if is_digit c then rest else acc

pub starts_digit : List ℕ → Bool
starts_digit [] = false
starts_digit (c ∷ cs) = is_digit c

-- strtoul saturates at 2^64 - 1, and the result is stored in an unsigned int.
pub unsigned_digits : List ℕ → Option ℕ
unsigned_digits cs =
    if starts_digit cs then some (min (digits_value 0 cs) (2 ^ 64 - 1) % 2 ^ 32) else none

-- A minus sign negates in unsigned long, and not where the value saturates.
pub negated_digits : List ℕ → Option ℕ
negated_digits cs =
    let v = digits_value 0 cs in
    if starts_digit cs
    then some ((if ltb v (2 ^ 64) then (2 ^ 64 - v) % 2 ^ 64 else 2 ^ 64 - 1) % 2 ^ 32)
    else none

pub signed_digits : List ℕ → Option ℕ
signed_digits [] = none
signed_digits (c ∷ cs) =
    if c == b'-'
    then negated_digits cs
    else if c == b'+'
    then unsigned_digits cs
    else unsigned_digits (c ∷ cs)

-- sscanf(name, "session%u.tlog", &n) == 1, and the same with ".bin": the conversion counts
-- before the suffix is compared, so both calls return 1 for the same names with the same n.
pub scan_session : List ℕ → Option ℕ
scan_session name = elim (match_word session_word name) [
  | none ↦ none
  | some rest ↦ signed_digits (skip_spaces rest)
]

-- One round of the readdir loop: `if (n > highest) highest = n`.
abbrev raise : ℕ → Option ℕ → ℕ
raise highest none = highest
raise highest (some n) = if ltb highest n then n else highest

pub highest_session : ℕ → List (List ℕ) → ℕ
highest_session highest [] = highest
highest_session highest (name ∷ names) = highest_session (raise highest (scan_session name)) names

-- `none` is a day with no directory yet; `highest + 1` is an unsigned int.
pub next_session_n : Option (List (List ℕ)) → ℕ
next_session_n none = 1
next_session_n (some names) = (highest_session 0 names + 1) % 2 ^ 32

-- printf's %u.
pub decimal : ℕ → ℕ → List ℕ
decimal zero n = []
decimal (suc fuel) n =
    let front = decimal fuel (n / 10) in
    if ltb n 10 then (n + 48) ∷ [] else front ++ (n % 10 + 48) ∷ []

-- "session%u" followed by the suffix of the writer.
pub session_name : ℕ → List ℕ → List ℕ
session_name n suffix = session_word ++ (decimal (suc n) n ++ suffix)
