-- ===== src/Procfs/Samples.antt =====
-- `parseCPULoad`, `parseCPUSamples` and `parseNetSamples`, on a text that is read without an error.
use go_systems_lab.Prelude.{
  ℕ, ◌+◌, ◌%◌, ◌^◌, List, [], ◌∷◌, ◌++◌, Bool, true, false, ◌&&◌, ltb, leb, if◌then◌else◌, none,
  some, length, drop, get_elem?, Result, ok, err, panic, ◌>>=◌,
}
use go_systems_lab.Bytes.{Bytes, codes, equal, has_prefix}
use go_systems_lab.Bytes.Dict.{insert}
use go_systems_lab.Text.Split.{split}
use go_systems_lab.Text.Scan.{scan}
use go_systems_lab.Text.Space.{fields, trim_space}
use go_systems_lab.Text.Number.{parse_uint, value_or_zero}

-- `coreStats`
pub record CoreStats : Type 0 where
  pub user : ℕ
  pub system : ℕ
  pub idle : ℕ
  pub total : ℕ

-- `netStats`
pub record NetStats : Type 0 where
  pub rx_bytes : ℕ
  pub tx_bytes : ℕ

-- `bufio.ErrTooLong`, and the error of a text that is no load average.
pub data LoadError : Type 0 where
  too_long unexpected_format : LoadError

-- `words[i]`
unfoldable pub word_at : {E : Type 0} → ℕ → List Bytes → Result E Bytes
word_at i words = elim (get_elem? words i) [ none ↦ panic | some word ↦ ok word ]

-- `val, _ := strconv.ParseUint(words[i], 10, 64)`
unfoldable pub number_at : {E : Type 0} → ℕ → List Bytes → Result E ℕ
unfolding word_at
number_at i words = do word ← word_at i words; ok (value_or_zero (parse_uint 10 word))

-- The load of one line; the error behind it for a line with fewer than three words.
unfoldable pub load_line : LoadError → List Bytes → Result LoadError Bytes
load_line failure words = if ltb (length words) 3 then err failure else (do
  one ← word_at 0 words
  five ← word_at 1 words
  fifteen ← word_at 2 words
  ok (
      codes "1 min:  "
      ++ (one
          ++ (codes " procs\n5 min:  "
              ++ (five ++ (codes " procs\n15 min: " ++ (fifteen ++ codes " procs")))))))

-- The scanner has no error behind a line that it returned.
abbrev pub of_first : List Bytes × Bool → Result LoadError Bytes
of_first ([], true) = err too_long
of_first ([], false) = err unexpected_format
of_first (line ∷ _, _) = load_line unexpected_format (fields line)

unfoldable pub parse_cpu_load : Bytes → Result LoadError Bytes
unfolding load_line
parse_cpu_load text = of_first (scan text)

-- `name == "cpu" || !unicode.IsDigit(rune(name[3]))` is false.
unfoldable pub digit_at : {E : Type 0} → ℕ → Bytes → Result E Bool
digit_at i name = elim (get_elem? name i) [ none ↦ panic | some c ↦ ok (leb b'0' c && leb c b'9') ]

unfoldable pub is_core : {E : Type 0} → Bytes → Result E Bool
unfolding digit_at
is_core name = if equal name (codes "cpu") then ok false else digit_at 3 name

-- The sum of all columns as a uint64.
unfoldable pub total_from : ℕ → List Bytes → ℕ
total_from total [] = total
total_from total (word ∷ words) =
    total_from ((total + value_or_zero (parse_uint 10 word)) % 2 ^ 64) words

unfoldable pub core_stats : {E : Type 0} → List Bytes → Result E CoreStats
unfolding number_at total_from
core_stats words = do
  user ← number_at 1 words
  system ← number_at 3 words
  idle ← number_at 4 words
  ok (record { user = user; system = system; idle = idle; total = total_from 0 (drop 1 words) })

abbrev pub CpuSamples : Type 0
CpuSamples = List (Bytes × CoreStats)

unfoldable pub cpu_words : {E : Type 0} → CpuSamples → List Bytes → Result E CpuSamples
unfolding core_stats is_core
cpu_words samples words = if ltb (length words) 5 then ok samples else (do
  name ← word_at 0 words
  core ← is_core name
  if core then core_stats words >>= (λ stats. ok (insert name stats samples)) else ok samples)

unfoldable pub cpu_line : {E : Type 0} → CpuSamples → Bytes → Result E CpuSamples
unfolding cpu_words
cpu_line samples line =
    if has_prefix line (codes "cpu") then cpu_words samples (fields line) else ok samples

unfoldable pub cpu_lines : {E : Type 0} → CpuSamples → List Bytes → Result E CpuSamples
unfolding cpu_line
cpu_lines samples [] = ok samples
cpu_lines samples (line ∷ lines) = cpu_line samples line >>= (λ more. cpu_lines more lines)

-- The samples, and whether the scanner ended with `bufio.ErrTooLong`.
unfoldable pub parse_cpu_samples : {E : Type 0} → Bytes → Result E (CpuSamples × Bool)
unfolding cpu_lines
parse_cpu_samples text = do samples ← cpu_lines [] (scan text).0; ok (samples, (scan text).1)

abbrev pub NetSamples : Type 0
NetSamples = List (Bytes × NetStats)

unfoldable pub net_words : {E : Type 0} → NetSamples → Bytes → List Bytes → Result E NetSamples
unfolding number_at
net_words samples iface words = if ltb (length words) 9 then ok samples else (do
  rx ← number_at 0 words
  tx ← number_at 8 words
  ok (insert iface (record { rx_bytes = rx; tx_bytes = tx }) samples))

unfoldable pub net_line : {E : Type 0} → NetSamples → Bytes → Result E NetSamples
unfolding net_words
net_line samples line =
    let parts = split b':' line in
    if ltb (length parts) 2 then ok samples else (do
      iface ← word_at 0 parts
      columns ← word_at 1 parts
      net_words samples (trim_space iface) (fields columns))

unfoldable pub net_lines : {E : Type 0} → NetSamples → List Bytes → Result E NetSamples
unfolding net_line
net_lines samples [] = ok samples
net_lines samples (line ∷ lines) = net_line samples line >>= (λ more. net_lines more lines)

-- The first two lines are headers.
unfoldable pub parse_net_samples : {E : Type 0} → Bytes → Result E (NetSamples × Bool)
unfolding net_lines
parse_net_samples text = do
  samples ← net_lines [] (drop 2 (scan text).0)
  ok (samples, (scan text).1)
