-- ===== src/Files/Blocks.antt =====
-- The reading loop of `StreamAndUploadFile`: the file in blocks, and their number.
use mathlib.Core.List.{append-nil}
use kairos_p2p_engine.Base.{
  ℕ, zero, suc, ◌+◌, ◌-◌, ◌/◌, ◌≤◌, ◌<◌, ◌≡◌, refl, sym, ap, ◌∙◌, Bool, true, false, List, [], ◌∷◌,
  ◌++◌, Bytes, length, take, drop, take-append-drop, length-drop, nat_eq, ltb, arith, if◌then◌else◌,
  Bool-cases, inl, inr,
}

-- An open file from its offset on: the bytes that can be read, and whether the read that meets
-- their end fails with an I/O error.
pub record Source : Type 0 where
  pub rest : Bytes
  pub broken : Bool

-- `io.ReadFull(file, buffer)`: a full buffer, `io.EOF`, `io.ErrUnexpectedEOF` with the bytes that
-- were read, or another error.
pub data ReadFull : Type 0 where
  full : Bytes → Source → ReadFull
  eof failed : ReadFull
  unexpected_eof : Bytes → ReadFull

unfoldable pub read_full : ℕ → Source → ReadFull
read_full block_size file =
    if ltb (length file.rest) block_size
    then if file.broken
      then failed
      else if nat_eq (length file.rest) 0
      then eof
      else unexpected_eof file.rest
    else full (take block_size file.rest)
        (record { rest = drop block_size file.rest; broken = file.broken })

-- One `cryptoJob`.
pub record CryptoJob : Type 0 where
  pub block_id : ℕ
  pub block : Bytes

-- The jobs that the loop sends, in order, and whether it ended without an error; on fuel. A short
-- block is the last one.
unfoldable pub read_blocks : ℕ → ℕ → ℕ → Source → List CryptoJob × Bool
read_blocks zero block_size block_id file = ([], false)
read_blocks (suc fuel) block_size block_id file = elim (read_full block_size file) [
  | eof ↦ ([], true)
  | failed ↦ ([], false)
  | unexpected_eof bytes ↦ (record { block_id = block_id; block = bytes } ∷ [], true)
  | full bytes file' ↦
      (let (jobs, done) = read_blocks fuel block_size (block_id + 1) file' in
        (record { block_id = block_id; block = bytes } ∷ jobs, done))
]

-- `int((fileSize + int64(blockSize) - 1) / int64(blockSize))`, and 1 instead of 0.
unfoldable pub total_blocks : ℕ → ℕ → ℕ
total_blocks file_size block_size =
    let n = (file_size + block_size - 1) / block_size in if nat_eq n 0 then 1 else n

-- The contents of the jobs, one after the other.
abbrev pub contents : List CryptoJob → Bytes
contents [] = []
contents (j ∷ js) = j.block ++ contents js

-- The jobs are numbered from `i` on.
abbrev pub IsNumbered : ℕ → List CryptoJob → Type 0
IsNumbered i [] = Unit {0}
IsNumbered i (j ∷ js) = (j.block_id ≡ i) × IsNumbered (i + 1) js

abbrev pub readable : Bytes → Source
readable bytes = record { rest = bytes; broken = false }

blocks_of_none : (s : ℕ) → 0 < s → (0 + s - 1) / s ≡ 0
blocks_of_none s h = grind arith

le_blocks : (n s : ℕ) → 0 < s → 0 < n → 0 < (n + s - 1) / s
le_blocks n s h k = grind arith

blocks_of_short : (n s : ℕ) → 0 < n → n < s → (n + s - 1) / s ≡ 1
blocks_of_short n s h k = grind arith

blocks_of_more : (n s : ℕ) → 0 < s → s ≤ n → (n + s - 1) / s ≡ suc ((n - s + s - 1) / s)
blocks_of_more n s h k = grind arith

nil_of_length : (bytes : Bytes) → nat_eq (length bytes) 0 ≡ true → bytes ≡ []
nil_of_length [] h = refl
nil_of_length (x ∷ bytes) h = absurd (ground arith)

read_full-eof :
    (s : ℕ) (bytes : Bytes)
    → ltb (length bytes) s ≡ true
    → nat_eq (length bytes) 0 ≡ true
    → read_full s (readable bytes) ≡ eof
unfolding read_full
read_full-eof s bytes h k = ground arith

read_full-short :
    (s : ℕ) (bytes : Bytes)
    → ltb (length bytes) s ≡ true
    → nat_eq (length bytes) 0 ≡ false
    → read_full s (readable bytes) ≡ unexpected_eof bytes
unfolding read_full
read_full-short s bytes h k = ground arith

read_full-full :
    (s : ℕ) (bytes : Bytes)
    → ltb (length bytes) s ≡ false
    → read_full s (readable bytes) ≡ full (take s bytes) (readable (drop s bytes))
unfolding read_full
read_full-full s bytes h = ground arith

-- For a file that can be read to its end, a positive block size, and more fuel than bytes: the
-- loop ends without an error, the blocks are the file, they are numbered from `i` on, and their
-- number is the file's size over the block size, rounded up.
pub read_blocks-contents :
    (fuel block_size i : ℕ) (bytes : Bytes)
    → 0 < block_size
    → length bytes < fuel
    → ((read_blocks fuel block_size i (readable bytes)).1 ≡ true)
      × (contents (read_blocks fuel block_size i (readable bytes)).0 ≡ bytes)
      × IsNumbered i (read_blocks fuel block_size i (readable bytes)).0
      × (length (read_blocks fuel block_size i (readable bytes)).0
          ≡ (length bytes + block_size - 1) / block_size)
unfolding read_blocks
read_blocks-contents zero s i bytes hs hf = elim hf [ ]
read_blocks-contents (suc fuel) s i bytes hs hf = elim (Bool-cases (ltb (length bytes) s)) [
  | inl short ↦ elim (Bool-cases (nat_eq (length bytes) 0)) [
    | inl empty ↦
        rw (read_full-eof s bytes short empty, read_blocks)
          (
            refl,
            sym (nil_of_length bytes empty),
            tt,
            ground (arith, blocks_of_none s hs, ap length (nil_of_length bytes empty)),
          )
    | inr filled ↦
        rw (read_full-short s bytes short filled, read_blocks)
          (refl, append-nil bytes, (refl, tt), ground (arith, blocks_of_short (length bytes) s))
  ]
  | inr long ↦
      let more : s ≤ length bytes = ground arith in
      let (done, all, numbered, count) =
        read_blocks-contents fuel s (i + 1) (drop s bytes) hs
          (omega (arith, length-drop s bytes)) in
      rw (read_full-full s bytes long, read_blocks)
        (
          done,
          ap (◌++◌ (take s bytes)) all ∙ take-append-drop s bytes,
          (refl, numbered),
          ap suc count ∙ rw (length-drop s bytes) (sym (blocks_of_more (length bytes) s hs more)),
        )
]

-- For a file that is not empty and can be read to its end, a positive block size, and more fuel
-- than bytes: the number of blocks in the manifest is the number of jobs.
pub total_blocks-read_blocks :
    (fuel block_size : ℕ) (bytes : Bytes)
    → 0 < block_size
    → length bytes < fuel
    → 0 < length bytes
    → total_blocks (length bytes) block_size
      ≡ length (read_blocks fuel block_size 0 (readable bytes)).0
unfolding total_blocks
total_blocks-read_blocks fuel s bytes hs hf h =
    let count = (read_blocks-contents fuel s 0 bytes hs hf).3 in
    ground (arith, count, le_blocks (length bytes) s hs h)

-- For a positive block size, an empty file has one block in its manifest, and no job makes it.
pub total_blocks_of_empty :
    (fuel block_size : ℕ)
    → 0 < block_size
    → (total_blocks 0 block_size ≡ 1)
      × (read_blocks (suc fuel) block_size 0 (readable []) ≡ ([], true))
unfolding total_blocks read_blocks
total_blocks_of_empty fuel s hs = (
  ground (arith, blocks_of_none s hs),
  rw (read_full-eof s [] (ground arith) refl, read_blocks) refl,
)
