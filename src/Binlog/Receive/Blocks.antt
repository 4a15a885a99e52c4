-- ===== src/Binlog/Receive/Blocks.antt =====
-- The blocks of 200 bytes in a log file, as write_at of handle_block leaves them.
use udpproxy.Prelude.{
  ℕ, zero, suc, ◌+◌, ◌*◌, ◌<◌, ◌≡◌, refl, ap, ◌∙◌, subst, inl, inr, List, [], ◌∷◌, arith, ◌==◌,
  if◌then◌else◌, lt→ltb, le→leb, ==_iff, Bool-cases, length, get_or,
}
use udpproxy.Binlog.Writer.{LogFile, write_at}
use udpproxy.Binlog.Receive.{block_bytes}

-- The bytes of block `s` in a file.
abbrev block_byte : LogFile → ℕ → ℕ → ℕ
block_byte f s i = f.content (s * block_bytes + i)

write_at-block_byte :
    (f : LogFile) (s t i : ℕ) (bytes : List ℕ)
    → length bytes ≡ 200
    → i < 200
    → block_byte (write_at f (s * block_bytes) bytes) t i
      ≡ (if t == s then get_or bytes i 0 else block_byte f t i)
unfolding write_at
write_at-block_byte f s t i bytes len h = elim (Bool-cases (t == s)) [
  | inl e ↦
      rw
        (
          e,
          (==_iff t s).0 e,
          le→leb (s * 200) (s * 200 + i) (omega arith),
          lt→ltb (s * 200 + i) (s * 200 + length bytes) (omega arith),
        )
        (ap (λ j. get_or bytes j 0) (omega arith))
  | inr e ↦ rw e (ground arith)
]

-- The 200 bytes of block `s` in a file.
pub read_bytes : LogFile → ℕ → ℕ → List ℕ
read_bytes f offset zero = []
read_bytes f offset (suc n) = f.content offset ∷ read_bytes f (offset + 1) n

abbrev pub read_block : LogFile → ℕ → List ℕ
read_block f s = read_bytes f (s * block_bytes) block_bytes

-- A file that holds the same bytes as another in a range, or those of a list, is read alike.
read_bytes-same :
    (f g : LogFile) (offset n : ℕ)
    → ((i : ℕ) → i < n → f.content (offset + i) ≡ g.content (offset + i))
    → read_bytes f offset n ≡ read_bytes g offset n
unfolding read_bytes
read_bytes-same f g offset zero h = refl
read_bytes-same f g offset (suc n) h =
    let first : f.content offset ≡ g.content offset =
      subst (λ o. f.content o ≡ g.content o) (omega arith) (h 0 (omega arith)) in
    let rest =
      read_bytes-same f g (offset + 1) n
        (λ i k. subst (λ o. f.content o ≡ g.content o) (omega arith) (h (suc i) (omega arith))) in
    λ k. first k ∷ rest k

read_bytes-list :
    (f : LogFile) (offset : ℕ) (bytes : List ℕ)
    → ((i : ℕ) → i < length bytes → f.content (offset + i) ≡ get_or bytes i 0)
    → read_bytes f offset (length bytes) ≡ bytes
unfolding read_bytes
read_bytes-list f offset [] h = refl
read_bytes-list f offset (b ∷ bytes) h =
    let first : f.content offset ≡ b =
      subst (λ o. f.content o ≡ b) (omega arith) (h 0 (omega arith)) in
    let rest = read_bytes-list f (offset + 1) bytes (λ i k.
      subst (λ o. f.content o ≡ get_or bytes i 0) (omega arith) (h (suc i) (omega arith))) in
    λ k. first k ∷ rest k

-- A block that is written is read back, and the other blocks are read as before.
pub write_at-read_block :
    (f : LogFile) (s t : ℕ) (bytes : List ℕ)
    → length bytes ≡ 200
    → read_block (write_at f (s * block_bytes) bytes) t ≡ (if t == s then bytes else read_block f t)
write_at-read_block f s t bytes len = elim (Bool-cases (t == s)) [
  | inl e ↦
      let at = λ (i : ℕ) (h : i < length bytes).
        write_at-block_byte f s t i bytes len (omega (arith, len)) ∙ rw e refl in
      rw e (
        subst (λ n. read_bytes (write_at f (s * 200) bytes) (t * 200) n ≡ bytes) len
          (read_bytes-list _ (t * 200) bytes at))
  | inr e ↦ rw e (
      read_bytes-same _ f (t * 200) 200
        (λ i h. write_at-block_byte f s t i bytes len h ∙ rw e refl))
]
