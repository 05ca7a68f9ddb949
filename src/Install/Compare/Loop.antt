-- ===== src/Install/Compare/Loop.antt =====
-- The loop of destinationUpToDate as it is written, over two open files, and that it ends.
use dynamic_credential_provi.Base.{
  Bool, Option, Result, Text, [], ap, arith, false, if◌then◌else◌, length, none, not, ok, refl,
  some, suc, text_eq, zero, ℕ, ◌+◌, ◌-◌, ◌<◌, ◌≡◌, ◌≤◌,
}
use dynamic_credential_provi.Install.Files.{more, ends, eof, Reads, ReadEnd, read_failure}
use dynamic_credential_provi.Install.Compare.{switch, compare_reads}

-- `Read` of an open file, at each position in it: the bytes, and nil or the error.
abbrev pub Reader : Type 0
Reader = ℕ → Text × Option ReadEnd

-- What a round answers before it compares the bytes.
abbrev pub round : Option ReadEnd → Option ReadEnd → ℕ → ℕ → Option (Result Bool)
round none none n m = none
round err1 err2 n m = switch err1 err2 n m

-- `none` is a loop that has not ended after so many rounds.
unfoldable pub compare_loop : ℕ → Reader → Reader → ℕ → ℕ → Option (Result Bool)
compare_loop zero f1 f2 i j = none
compare_loop (suc fuel) f1 f2 i j =
    let (s1, err1) = f1 i in
    let (s2, err2) = f2 j in
    let rest = compare_loop fuel f1 f2 (i + length s1) (j + length s2) in
    elim (round err1 err2 (length s1) (length s2)) [
      | some result ↦ some result
      | none ↦ if not (text_eq s1 s2) then some (ok false) else rest
    ]

-- The reads of a file from a position on.
unfoldable pub reads_from : ℕ → Reader → ℕ → Reads
reads_from zero f i = ends [] eof
reads_from (suc fuel) f i =
    let (s, end) = f i in
    let rest = reads_from fuel f (i + length s) in
    elim end [ none ↦ more s rest | some e ↦ ends s e ]

-- A read of a file of this size that reports no error gives at least one byte of it.
abbrev pub Progresses : Reader → ℕ → Type 0
Progresses f size = (i : ℕ) → (f i).1 ≡ none → (0 < length (f i).0) × (i + length (f i).0 ≤ size)

-- The loop of destinationUpToDate ends with the answer of the comparison by reads within as many
-- rounds as either file has bytes left, and one more, if every read that reports no error gives at
-- least one byte and stays in the file.
pub compare_loop-eq-compare_reads :
    (fuel : ℕ) (f1 f2 : Reader) (size1 size2 i j : ℕ)
    → Progresses f1 size1
    → Progresses f2 size2
    → size1 - i < fuel
    → size2 - j < fuel
    → compare_loop fuel f1 f2 i j
      ≡ some (compare_reads (reads_from fuel f1 i) (reads_from fuel f2 j))
unfolding compare_loop compare_reads reads_from switch
compare_loop-eq-compare_reads zero f1 f2 size1 size2 i j p q a b = absurd (omega arith)
compare_loop-eq-compare_reads (suc fuel) f1 f2 size1 size2 i j p q a b =
    go (λ k l. compare_loop-eq-compare_reads fuel f1 f2 size1 size2 k l p q) (f1 i) refl (f2 j) refl
  where
    go :
        ((k l : ℕ)
          → size1 - k < fuel
          → size2 - l < fuel
          → compare_loop fuel f1 f2 k l
            ≡ some (compare_reads (reads_from fuel f1 k) (reads_from fuel f2 l)))
        → (r1 : Text × Option ReadEnd) → f1 i ≡ r1
        → (r2 : Text × Option ReadEnd) → f2 j ≡ r2
        → compare_loop (suc fuel) f1 f2 i j
          ≡ some (compare_reads (reads_from (suc fuel) f1 i) (reads_from (suc fuel) f2 j))
    go ih (s1, none) e1 (s2, none) e2 =
        let (more1, in1) = p i (ap (λ (r : Text × Option ReadEnd). r.1) e1) in
        let (more2, in2) = q j (ap (λ (r : Text × Option ReadEnd). r.1) e2) in
        let read1 = ap (λ (r : Text × Option ReadEnd). length r.0) e1 in
        let read2 = ap (λ (r : Text × Option ReadEnd). length r.0) e2 in
        let next =
          ih (i + length s1) (j + length s2) (omega (arith, read1)) (omega (arith, read2)) in
        ground (arith, next)
    go ih (s1, none) e1 (s2, some eof) e2 = ground arith
    go ih (s1, none) e1 (s2, some (read_failure x)) e2 = ground arith
    go ih (s1, some eof) e1 (s2, none) e2 = ground arith
    go ih (s1, some (read_failure x)) e1 (s2, none) e2 = ground arith
    go ih (s1, some eof) e1 (s2, some eof) e2 = ground arith
    go ih (s1, some eof) e1 (s2, some (read_failure y)) e2 = ground arith
    go ih (s1, some (read_failure x)) e1 (s2, some eof) e2 = ground arith
    go ih (s1, some (read_failure x)) e1 (s2, some (read_failure y)) e2 = ground arith
