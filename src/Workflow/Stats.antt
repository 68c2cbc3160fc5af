-- ===== src/Workflow/Stats.antt =====
-- `parseJobStats`: the resident memory of a process from its line in /proc.
use go_systems_lab.Prelude.{
  ℕ, suc, ◌*◌, ◌/◌, ◌%◌, ◌^◌, ◌<◌, ◌≡◌, refl, Bool, true, false, ltb, List, [], ◌∷◌, ◌++◌, map,
  if◌then◌else◌, none, some, length, length-map, get_elem?, Result, ok, err, panic, ◌>>=◌, ◌⊎◌, inl,
  inr, arith,
}
use go_systems_lab.Bytes.{Bytes, codes}
use go_systems_lab.Text.Scan.{scan, scan-append, IsLine}
use go_systems_lab.Text.Space.{fields}
use go_systems_lab.Text.Words.{IsWord, Words, IsWords, spaced, fields-spaced}
use go_systems_lab.Text.Number.{
  value, parse_uint, value_or_zero, format_uint, parse_uint-format_uint,
}

-- `bufio.ErrTooLong`, and the text that is returned beside it.
pub data ScanError : Type 0 where
  too_long : Bytes → ScanError

-- `fields[i]`
unfoldable pub field_at : ℕ → List Bytes → Result ScanError Bytes
field_at i words = elim (get_elem? words i) [ none ↦ panic | some word ↦ ok word ]

-- The text for a number of pages.
unfoldable pub rss_text : ℕ → Bytes
rss_text pages =
    codes "RSS: " ++ (format_uint 10 (pages * 4096 % 2 ^ 64 / 1024 / 1024) ++ codes " MB")

unfoldable pub line_stats : Bytes → Result ScanError Bytes
unfolding field_at rss_text
line_stats line =
    if ltb (length (fields line)) 24
    then ok (codes "N/A")
    else (do word ← field_at 23 (fields line); ok (rss_text (value_or_zero (parse_uint 10 word))))

abbrev of_scan : List Bytes × Bool → Result ScanError Bytes
of_scan ([], false) = ok (codes "N/A")
of_scan ([], true) = err (too_long (codes "N/A"))
of_scan (line ∷ _, _) = line_stats line

-- `parseJobStats` of a text that is read without an error.
unfoldable pub parse_job_stats : Bytes → Result ScanError Bytes
unfolding line_stats
parse_job_stats text = of_scan (scan text)

-- `os.Open` in front of `parseJobStats`, over its errno or the text.
pub data StatsError : Type 0 where
  not_opened : ℕ → StatsError
  not_scanned : ScanError → StatsError

abbrev of_parse : Result ScanError Bytes → Result StatsError Bytes
of_parse (ok usage) = ok usage
of_parse (err e) = err (not_scanned e)
of_parse panic = panic

unfoldable pub read_job_stats : ℕ ⊎ Bytes → Result StatsError Bytes
unfolding parse_job_stats
read_job_stats (inl errno) = err (not_opened errno)
read_job_stats (inr text) = of_parse (parse_job_stats text)

get_elem?-map :
    {A B : Type 0} (f : A → B) (xs : List A) (i : ℕ) (x : A)
    → get_elem? xs i ≡ some x
    → get_elem? (map f xs) i ≡ some (f x)
get_elem?-map f [] i x h = cc
get_elem?-map f (y ∷ xs) ℕ.zero x h = cc
get_elem?-map f (y ∷ xs) (suc i) x h = get_elem?-map f xs i x h

get_elem?-lt : {A : Type 0} (xs : List A) (i : ℕ) {x : A} → get_elem? xs i ≡ some x → i < length xs
get_elem?-lt [] i h = cc
get_elem?-lt (y ∷ xs) ℕ.zero h = omega arith
get_elem?-lt (y ∷ xs) (suc i) h = omega (arith, get_elem?-lt xs i h)

-- A line of words of which the 24th is the number of resident pages, below 2 ^ 52, gives
-- these pages in megabytes of 256 pages each, rounded down; what stands in the lines behind it does not
-- matter.
pub parse_job_stats-spaced :
    (word : Bytes) (words : Words) (rest : Bytes) (gap pages : ℕ)
    → IsWord word
    → IsWords words
    → IsLine (word ++ spaced words)
    → get_elem? words 22 ≡ some (gap, format_uint 10 pages)
    → pages < 2 ^ 52
    → parse_job_stats ((word ++ spaced words) ++ (b'\n' ∷ rest))
      ≡ ok (codes "RSS: " ++ (format_uint 10 (pages / 256) ++ codes " MB"))
unfolding parse_job_stats
parse_job_stats-spaced word words rest gap pages h hs line at_23 small =
    let text : Bytes = word ++ spaced words in
    let split_up : fields text ≡ word ∷ map (λ w. w.1) words = fields-spaced 0 word words h hs in
    let enough : ltb (length (word ∷ map (λ w. w.1) words)) 24 ≡ false =
      ground (arith, length-map words (λ (w : ℕ × Bytes). w.1), get_elem?-lt words 22 at_23) in
    let word_23 : get_elem? (map (λ w. w.1) words) 22 ≡ some (format_uint 10 pages) =
      get_elem?-map (λ (w : ℕ × Bytes). w.1) words 22 (gap, format_uint 10 pages) at_23 in
    let read : parse_uint 10 (format_uint 10 pages) ≡ value pages =
      parse_uint-format_uint 10 0 pages (omega arith) (omega arith) (omega arith) in
    let at_field : field_at 23 (word ∷ map (λ w. w.1) words) ≡ ok (format_uint 10 pages) =
      rw (field_at, word_23) refl in
    let size : pages * 4096 % 2 ^ 64 / 1024 / 1024 ≡ pages / 256 = omega arith in
    rw (scan-append text rest line)
      (unfold line_stats rss_text value_or_zero in rw (split_up, enough, at_field, read, size) refl)
