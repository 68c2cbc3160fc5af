-- ===== src/Procfs/Readback.antt =====
-- `parseCPUSamples` on a text laid out as in proc(5).
use go_systems_lab.Prelude.{
  ℕ, inl, inr, Bool-cases, ◌+◌, ◌%◌, ◌^◌, ◌≤◌, ◌≡◌, refl, ap, ◌∙◌, List, [], ◌∷◌, ◌++◌, map, true,
  false, leb, ◌&&◌, ok, length, arith, ltb,
}
use go_systems_lab.Bytes.{Bytes, All, All-map, codes, equal, has_prefix}
use go_systems_lab.Bytes.Dict.{insert}
use go_systems_lab.Text.Scan.{scan, scan-append, IsLine}
use go_systems_lab.Text.Space.{IsPlain}
use go_systems_lab.Text.Words.{IsWord, Words, IsWords, spaced, fields-spaced}
use go_systems_lab.Text.Number.{
  format_uint, parse_uint, parse_uint-format_uint, value_or_zero, max_uint64, IsDecimal,
  format_uint-IsDecimal,
}
use go_systems_lab.Procfs.Samples.{
  CoreStats, CpuSamples, word_at, number_at, digit_at, is_core, total_from, core_stats, cpu_words,
  cpu_line, cpu_lines, parse_cpu_samples,
}

-- A line of /proc/stat: a core, its first four columns, and the columns behind them.
pub record CoreLine : Type 0 where
  pub number : ℕ
  pub user : ℕ
  pub nice : ℕ
  pub system : ℕ
  pub idle : ℕ
  pub others : List ℕ

abbrev pub columns_of : CoreLine → List ℕ
columns_of c = c.user ∷ c.nice ∷ c.system ∷ c.idle ∷ c.others

-- Columns with one space in front of each.
unfoldable pub column_words : List ℕ → Words
column_words [] = []
column_words (n ∷ ns) = (0, format_uint 10 n) ∷ column_words ns

unfoldable pub core_name : CoreLine → Bytes
core_name c = codes "cpu" ++ format_uint 10 c.number

unfoldable pub core_text : CoreLine → Bytes
core_text c = core_name c ++ spaced (column_words (columns_of c))

-- The lines of the cores, with `rest` behind them.
unfoldable pub core_lines : List CoreLine → Bytes → Bytes
core_lines [] rest = rest
core_lines (c ∷ cores) rest = core_text c ++ (b'\n' ∷ core_lines cores rest)

unfoldable pub sum : List ℕ → ℕ
sum [] = 0
sum (n ∷ ns) = n + sum ns

abbrev pub stats_of : CoreLine → CoreStats
stats_of c = record {
  user = c.user;
  system = c.system;
  idle = c.idle;
  total = sum (columns_of c) % 2 ^ 64;
}

-- The samples of some cores, on top of others.
unfoldable pub samples_of : CpuSamples → List CoreLine → CpuSamples
samples_of samples [] = samples
samples_of samples (c ∷ cores) = samples_of (insert (core_name c) (stats_of c) samples) cores

-- Each column is a uint64, and the line is shorter than the scanner's buffer.
abbrev pub IsCoreLine : CoreLine → Type 0
IsCoreLine c = All (λ n. n ≤ max_uint64) (columns_of c) × IsLine (core_text c)

plain : (c : ℕ) → IsDecimal c → IsPlain c
plain c h = omega arith

number-IsWord : (n : ℕ) → IsWord (format_uint 10 n)
number-IsWord n =
    let (c, s, e, digits) = format_uint-IsDecimal n in
    rw e (All-map IsDecimal IsPlain plain (c ∷ s) digits, λ p. cc)

columns-IsWords : (ns : List ℕ) → IsWords (column_words ns)
unfolding column_words
columns-IsWords [] = tt
columns-IsWords (n ∷ ns) = (number-IsWord n, columns-IsWords ns)

name-IsWord : (c : CoreLine) → IsWord (core_name c)
unfolding core_name
name-IsWord c = ((omega arith, (omega arith, (omega arith, (number-IsWord c.number).0))), λ p. cc)

read : (n : ℕ) → n ≤ max_uint64 → value_or_zero (parse_uint 10 (format_uint 10 n)) ≡ n
unfolding value_or_zero
read n h = rw (parse_uint-format_uint 10 0 n (omega arith) (omega arith) h) refl

total_from-sum :
    (ns : List ℕ) (total : ℕ)
    → All (λ n. n ≤ max_uint64) ns
    → total_from (total % 2 ^ 64) (map (λ w. w.1) (column_words ns)) ≡ (total + sum ns) % 2 ^ 64
unfolding total_from column_words sum
total_from-sum [] total h = omega arith
total_from-sum (n ∷ ns) total (h, hs) =
    let wrapped : (total % 2 ^ 64 + n) % 2 ^ 64 ≡ (total + n) % 2 ^ 64 = omega arith in
    let words : List Bytes = map (λ w. w.1) (column_words ns) in
    ap (λ m. total_from ((total % 2 ^ 64 + m) % 2 ^ 64) words) (read n h)
    ∙ ap (λ m. total_from m words) wrapped
    ∙ total_from-sum ns (total + n) hs
    ∙ omega arith

named-is_core : {E : Type 0} (c : CoreLine) → is_core {E = E} (core_name c) ≡ ok true
unfolding is_core core_name digit_at equal
named-is_core c =
    let (d, s, e, (digit, _)) = format_uint-IsDecimal c.number in
    let decimal : (leb b'0' d && leb d b'9') ≡ true = ground arith in rw (e, decimal) refl

core_words :
    {E : Type 0} (samples : CpuSamples) (c : CoreLine)
    → All (λ n. n ≤ max_uint64) (columns_of c)
    → cpu_words {E = E} samples (core_name c ∷ map (λ w. w.1) (column_words (columns_of c)))
      ≡ ok (insert (core_name c) (stats_of c) samples)
unfolding cpu_words word_at core_stats number_at column_words
core_words samples c h =
    let enough : ltb (length (core_name c ∷ map (λ w. w.1) (column_words (columns_of c)))) 5
        ≡ false =
      ground arith in
    rw (enough, named-is_core c, read c.user h.0, read c.system h.1.1.0, read c.idle h.1.1.1.0)
      (ap
        (λ total. ok (
          insert (core_name c)
            (record { user = c.user; system = c.system; idle = c.idle; total = total }) samples))
        (total_from-sum (columns_of c) 0 h ∙ omega arith))

core_line :
    {E : Type 0} (samples : CpuSamples) (c : CoreLine)
    → All (λ n. n ≤ max_uint64) (columns_of c)
    → cpu_line {E = E} samples (core_text c) ≡ ok (insert (core_name c) (stats_of c) samples)
unfolding cpu_line core_text
core_line samples c h =
    let prefix : has_prefix (core_text c) (codes "cpu") ≡ true =
      unfold core_text core_name has_prefix in refl in
    let words =
      fields-spaced 0 (core_name c) (column_words (columns_of c)) (name-IsWord c)
        (columns-IsWords (columns_of c)) in
    rw (prefix, words) (core_words samples c h)

-- Lines that do not start with cpu.
abbrev pub IsOther : List Bytes → Type 0
IsOther lines = All (λ line. has_prefix line (codes "cpu") ≡ false) lines

other_lines :
    {E : Type 0} (samples : CpuSamples) (lines : List Bytes)
    → IsOther lines
    → cpu_lines {E = E} samples lines ≡ ok samples
unfolding cpu_lines cpu_line
other_lines samples [] h = refl
other_lines samples (line ∷ lines) (h, hs) = rw h (other_lines samples lines hs)

scanned_cores :
    {E : Type 0} (cores : List CoreLine) (samples : CpuSamples) (rest : Bytes)
    → All IsCoreLine cores
    → IsOther (scan rest).0
    → (cpu_lines {E = E} samples (scan (core_lines cores rest)).0 ≡ ok (samples_of samples cores))
      × ((scan (core_lines cores rest)).1 ≡ (scan rest).1)
unfolding core_lines samples_of cpu_lines
scanned_cores [] samples rest h other = (other_lines samples (scan rest).0 other, refl)
scanned_cores {E = E} (c ∷ cores) samples rest ((columns, line), hs) other =
    rw (scan-append (core_text c) (core_lines cores rest) line, core_line {E = E} samples c columns)
      (scanned_cores cores (insert (core_name c) (stats_of c) samples) rest hs other)

-- The line `cpu` of all cores together, with its columns, and the lines of the cores behind it.
unfoldable pub stat_text : List ℕ → List CoreLine → Bytes → Bytes
stat_text columns cores rest =
    (codes "cpu" ++ spaced (column_words columns)) ++ (b'\n' ∷ core_lines cores rest)

summary_line :
    {E : Type 0} (columns : List ℕ)
    → cpu_line {E = E} [] (codes "cpu" ++ spaced (column_words columns)) ≡ ok []
unfolding cpu_line cpu_words word_at is_core
summary_line columns =
    let prefix : has_prefix (codes "cpu" ++ spaced (column_words columns)) (codes "cpu") ≡ true =
      unfold has_prefix in refl in
    let words =
      fields-spaced 0 (codes "cpu") (column_words columns) (omega arith, λ p. cc)
        (columns-IsWords columns) in
    rw (prefix, words)
      (elim (Bool-cases (ltb (length (codes "cpu" ∷ map (λ w. w.1) (column_words columns))) 5)) [
        | inl few ↦ rw few refl
        | inr enough ↦ rw enough (unfold equal in refl)
      ])

-- From a text laid out as in proc(5), `parseCPUSamples` takes one sample for each core, in order, with the
-- user, the system and the idle column of its line and the sum of all its columns as a uint64; the line
-- of all cores together and lines that do not start with cpu give none.
pub parse_cpu_samples-stat_text :
    {E : Type 0} (columns : List ℕ) (cores : List CoreLine) (rest : Bytes)
    → IsLine (codes "cpu" ++ spaced (column_words columns))
    → All IsCoreLine cores
    → IsOther (scan rest).0
    → parse_cpu_samples {E = E} (stat_text columns cores rest)
      ≡ ok (samples_of [] cores, (scan rest).1)
unfolding parse_cpu_samples stat_text cpu_lines
parse_cpu_samples-stat_text {E = E} columns cores rest line h other =
    let (samples, error) = scanned_cores {E = E} cores [] rest h other in
    rw (
      scan-append (codes "cpu" ++ spaced (column_words columns)) (core_lines cores rest) line,
      summary_line {E = E} columns,
      samples,
      error,
    )
