-- ===== src/Session/Number/Fresh.antt =====
-- A new session file never takes the name of one that is there.
use udpproxy.Prelude.{
  ℕ, zero, suc, ◌+◌, ◌-◌, ◌*◌, ◌/◌, ◌%◌, ◌^◌, ◌≤◌, ◌<◌, ◌≡◌, refl, ap, ◌∙◌, inl, inr, true, false,
  some, List, [], ◌∷◌, ◌++◌, arith, ltb, Bool-cases, length, All, length-append, All-append,
}
use mathlib.Core.List.{Memᴰ}
use udpproxy.Session.Number.{
  is_digit, is_space, match_word, skip_spaces, digits_value, starts_digit, unsigned_digits,
  signed_digits, scan_session, raise, highest_session, next_session_n, decimal, session_name,
}

abbrev IsDigit : ℕ → Type 0
IsDigit c = is_digit c ≡ true

IsDigit-of : (d : ℕ) → d < 10 → IsDigit (d + 48)
unfolding is_digit
IsDigit-of d h = ground arith

decimal-IsDigit : (f n : ℕ) → All IsDigit (decimal f n)
unfolding decimal
decimal-IsDigit zero n = tt
decimal-IsDigit (suc f) n = elim (Bool-cases (ltb n 10)) [
  | inl h ↦ rw (h, decimal) (IsDigit-of n (ground arith), tt)
  | inr h ↦
      rw (h, decimal)
        (All-append IsDigit (decimal f (n / 10)) _ (decimal-IsDigit f (n / 10))
          (IsDigit-of (n % 10) (omega arith), tt))
]

digits_value-snoc :
    (xs : List ℕ) (acc d : ℕ)
    → All IsDigit xs
    → d < 10
    → digits_value acc (xs ++ (d + 48) ∷ []) ≡ digits_value acc xs * 10 + d
unfolding digits_value
digits_value-snoc [] acc d h k = rw (IsDigit-of d k) (omega arith)
digits_value-snoc (x ∷ xs) acc d h k = rw h.0 (digits_value-snoc xs (acc * 10 + (x - 48)) d h.1 k)

digits_value-stop :
    (xs ys : List ℕ) (acc : ℕ)
    → All IsDigit xs
    → starts_digit ys ≡ false
    → digits_value acc (xs ++ ys) ≡ digits_value acc xs
unfolding digits_value starts_digit
digits_value-stop [] [] acc h k = refl
digits_value-stop [] (y ∷ ys) acc h k = rw k
digits_value-stop (x ∷ xs) ys acc h k = rw h.0 (digits_value-stop xs ys (acc * 10 + (x - 48)) h.1 k)

-- Reading back the digits that %u prints.
digits_value-decimal : (f n : ℕ) → n < f → digits_value 0 (decimal f n) ≡ n
unfolding decimal
digits_value-decimal zero n h = absurd (omega arith)
digits_value-decimal (suc f) n h = elim (Bool-cases (ltb n 10)) [
  | inl k ↦
      rw (k, decimal)
        (digits_value-snoc [] 0 n tt (ground arith) ∙ unfold digits_value in omega arith)
  | inr k ↦
      rw (k, decimal)
        (digits_value-snoc (decimal f (n / 10)) 0 (n % 10) (decimal-IsDigit f (n / 10))
            (omega arith)
          ∙ omega (arith, digits_value-decimal f (n / 10) (ground arith)))
]

digits_start : (xs ys : List ℕ) → All IsDigit xs → 0 < length xs → starts_digit (xs ++ ys) ≡ true
unfolding starts_digit
digits_start [] ys h k = absurd (omega arith)
digits_start (x ∷ xs) ys h k = h.0

length-decimal-pos : (f n : ℕ) → 0 < length (decimal (suc f) n)
unfolding decimal
length-decimal-pos f n = ground (arith, length-append (decimal f (n / 10)) ((n % 10 + 48) ∷ []))

-- %u reads a text that begins with a digit as it stands.
signed_digits-digit :
    (ys : List ℕ)
    → starts_digit ys ≡ true
    → digits_value 0 ys < 2 ^ 32
    → signed_digits (skip_spaces ys) ≡ some (digits_value 0 ys)
unfolding starts_digit signed_digits skip_spaces is_digit is_space unsigned_digits
signed_digits-digit [] h k = cc
signed_digits-digit (y ∷ ys) h k = ground arith

module _ (n : ℕ) (suffix : List ℕ) (small : n < 2 ^ 32) (stop : starts_digit suffix ≡ false) where
  printed : digits_value 0 (decimal (suc n) n ++ suffix) ≡ n
  printed =
      digits_value-stop (decimal (suc n) n) suffix 0 (decimal-IsDigit (suc n) n) stop
      ∙ digits_value-decimal (suc n) n (omega arith)

  -- The name that a writer gives its file is read back as its session number, for every number
  -- that an unsigned int holds and every suffix that does not begin with a digit.
  pub scan_session-session_name : scan_session (session_name n suffix) ≡ some n
  unfolding scan_session session_name match_word
  scan_session-session_name =
      signed_digits-digit _
        (digits_start _ suffix (decimal-IsDigit (suc n) n) (length-decimal-pos n n))
        (omega (arith, printed))
      ∙ ap some printed

highest_session-le : (h : ℕ) (names : List (List ℕ)) → h ≤ highest_session h names
unfolding highest_session
highest_session-le h [] = omega arith
highest_session-le h (name ∷ names) =
    ground (arith, highest_session-le (raise h (scan_session name)) names)

-- No name in the directory has a number above the highest.
highest_session-bound :
    (h : ℕ) (names : List (List ℕ)) (name : List ℕ) (n : ℕ)
    → Memᴰ name names
    → scan_session name ≡ some n
    → n ≤ highest_session h names
unfolding highest_session
highest_session-bound h [] name n m s = elim m [ ]
highest_session-bound h (x ∷ names) name n (Memᴰ.head e) s =
    ground (arith, highest_session-le (raise h (scan_session x)) names, ap scan_session e)
highest_session-bound h (x ∷ names) name n (Memᴰ.tail m) s =
    highest_session-bound (raise h (scan_session x)) names name n m s

module _ (names : List (List ℕ)) (room : highest_session 0 names < 2 ^ 32 - 1) where
  -- Where the highest session number of the day is below 2^32 - 1, the number chosen is above that
  -- of every name in the directory.
  pub next_session_n_above :
      (name : List ℕ) (n : ℕ)
      → Memᴰ name names
      → scan_session name ≡ some n
      → n < next_session_n (some names)
  unfolding next_session_n
  next_session_n_above name n m s = omega (arith, highest_session-bound 0 names name n m s)

  next_session_n_read :
      (suffix : List ℕ)
      → starts_digit suffix ≡ false
      → scan_session (session_name (next_session_n (some names)) suffix)
        ≡ some (next_session_n (some names))
  unfolding next_session_n
  next_session_n_read suffix stop = scan_session-session_name _ suffix (omega arith) stop

  -- Where the highest session number of the day is below 2^32 - 1, the name built from the number
  -- chosen, with any suffix that does not begin with a digit, is not in the directory: opening the
  -- new file with "wb+" truncates no earlier session.
  pub session_name_fresh :
      (suffix : List ℕ)
      → starts_digit suffix ≡ false
      → ¬ Memᴰ (session_name (next_session_n (some names)) suffix) names
  session_name_fresh suffix stop m =
      omega (arith, next_session_n_above _ _ m (next_session_n_read suffix stop))
