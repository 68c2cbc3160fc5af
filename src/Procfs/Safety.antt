-- ===== src/Procfs/Safety.antt =====
-- No text makes the parsers of /proc read out of range.
use go_systems_lab.Prelude.{
  ℕ, zero, suc, ◌≤◌, ◌<◌, ◌≡◌, refl, sym, ap, ◌∙◌, List, [], ◌∷◌, ◌++◌, Bool, true, false,
  Bool-cases, inl, inr, ltb, leb, ◌&&◌, if◌then◌else◌, length, drop, Result, ok, ◌>>=◌, arith,
}
use mathlib.Core.List.{append_assoc, append-nil}
use go_systems_lab.Bytes.{Bytes, codes, equal, has_prefix}
use go_systems_lab.Bytes.Dict.{insert}
use go_systems_lab.Text.Split.{split}
use go_systems_lab.Text.Scan.{scan}
use go_systems_lab.Text.Space.{fields, fields_loop, space_width, trim_space}
use go_systems_lab.Text.Words.{fields_loop_word}
use go_systems_lab.Procfs.Samples.{
  CpuSamples, NetSamples, word_at, number_at, digit_at, is_core, core_stats, cpu_words, cpu_line,
  cpu_lines, parse_cpu_samples, net_words, net_line, net_lines, parse_net_samples,
}

-- A result that is a value.
abbrev pub Returns : {E A : Type 0} → Result E A → Type 0
Returns {A = A} r = (a : A) × (r ≡ ok a)

Returns-bind :
    {E A B : Type 0} (r : Result E A) (k : A → Result E B)
    → Returns r
    → ((a : A) → Returns (k a))
    → Returns (r >>= k)
Returns-bind r k (a, e) h = let (b, f) = h a in (b, rw e f)

pub word_at-Returns :
    {E : Type 0} (words : List Bytes) (i : ℕ) → i < length words → Returns (word_at {E = E} i words)
unfolding word_at
word_at-Returns [] i h = absurd (omega arith)
word_at-Returns (w ∷ words) zero h = (w, refl)
word_at-Returns (w ∷ words) (suc i) h = word_at-Returns words i (omega arith)

number_at-Returns :
    {E : Type 0} (words : List Bytes) (i : ℕ)
    → i < length words
    → Returns (number_at {E = E} i words)
unfolding number_at
number_at-Returns words i h =
    Returns-bind (word_at i words) _ (word_at-Returns words i h) (λ w. (_, refl))

core_stats-Returns :
    {E : Type 0} (words : List Bytes) → 5 ≤ length words → Returns (core_stats {E = E} words)
unfolding core_stats
core_stats-Returns words h =
    Returns-bind (number_at 1 words) _ (number_at-Returns words 1 (omega arith)) (λ user.
      Returns-bind (number_at 3 words) _ (number_at-Returns words 3 (omega arith)) (λ system.
        Returns-bind (number_at 4 words) _ (number_at-Returns words 4 (omega arith))
          (λ idle. (_, refl))))

-- A word that has been started goes on in front of the rest of the fields.
fields_loop-started :
    (b : ℕ) (word s : Bytes)
    → (more : Bytes) × (rest : List Bytes) × (fields_loop zero (b ∷ word) s
        ≡ ((b ∷ word) ++ more) ∷ rest)
unfolding fields_loop
fields_loop-started b word [] = ([], [], rw append-nil refl)
fields_loop-started b word (c ∷ s) =
    split_width (fields_loop-started b (word ++ (c ∷ [])) s) (space_width (c ∷ s)) refl
  where
    split_width :
        (more : Bytes) × (rest : List Bytes) × (fields_loop zero (b ∷ (word ++ (c ∷ []))) s
            ≡ ((b ∷ (word ++ (c ∷ []))) ++ more) ∷ rest)
        → (width : ℕ) → space_width (c ∷ s) ≡ width
        → (more : Bytes) × (rest : List Bytes) × (fields_loop zero (b ∷ word) (c ∷ s)
            ≡ ((b ∷ word) ++ more) ∷ rest)
    split_width (more, rest, f) zero e = (
      c ∷ more,
      rest,
      rw (e, fields_loop) (f ∙ ap (λ l. (b ∷ l) ∷ rest) (append_assoc word (c ∷ []) more)),
    )
    split_width after (suc width) e = (
      [],
      fields_loop width [] s,
      rw (e, fields_loop) (ap (λ l. l ∷ fields_loop width [] s) (sym (append-nil (b ∷ word)))),
    )

cpu_prefix :
    (line : Bytes) → has_prefix line (codes "cpu") ≡ true → (s : Bytes) × (line ≡ codes "cpu" ++ s)
unfolding has_prefix
cpu_prefix [] h = cc
cpu_prefix (a ∷ []) h = ground arith
cpu_prefix (a ∷ b ∷ []) h = ground arith
cpu_prefix (a ∷ b ∷ c ∷ s) h = (s, ground arith)

fields_cpu :
    (s : Bytes)
    → (more : Bytes) × (rest : List Bytes) × (fields (codes "cpu" ++ s)
        ≡ (codes "cpu" ++ more) ∷ rest)
unfolding fields
fields_cpu s =
    let (more, rest, e) = fields_loop-started 99 (112 ∷ 117 ∷ []) s in
    (more, rest, fields_loop_word (codes "cpu") [] s (omega arith) ∙ e)

is_core-Returns : {E : Type 0} (more : Bytes) → Returns (is_core {E = E} (codes "cpu" ++ more))
unfolding is_core digit_at
is_core-Returns [] = (false, unfold equal in refl)
is_core-Returns (c ∷ more) = (leb b'0' c && leb c b'9', unfold equal in refl)

cpu_words-Returns :
    {E : Type 0} (samples : CpuSamples) (more : Bytes) (rest : List Bytes)
    → Returns (cpu_words {E = E} samples ((codes "cpu" ++ more) ∷ rest))
unfolding cpu_words word_at
cpu_words-Returns samples more rest =
    let words : List Bytes = (codes "cpu" ++ more) ∷ rest in
    elim (Bool-cases (ltb (length words) 5)) [
      | inl few ↦ (samples, rw few refl)
      | inr enough ↦ rw enough (bound (ground arith))
    ]
  where
    stored :
        {E : Type 0} (core : Bool)
        → Returns (core_stats {E = E} ((codes "cpu" ++ more) ∷ rest))
        → Returns (
            if core
            then core_stats {E = E} ((codes "cpu" ++ more) ∷ rest)
              >>= (λ stats. ok (insert (codes "cpu" ++ more) stats samples))
            else ok samples)
    stored true (stats, e) = (insert (codes "cpu" ++ more) stats samples, rw e refl)
    stored false h = (samples, refl)

    bound :
        {E : Type 0}
        → 5 ≤ length ((codes "cpu" ++ more) ∷ rest)
        → Returns (
            is_core {E = E} (codes "cpu" ++ more) >>= (λ core.
              if core
              then core_stats {E = E} ((codes "cpu" ++ more) ∷ rest)
                >>= (λ stats. ok (insert (codes "cpu" ++ more) stats samples))
              else ok samples))
    bound enough =
        Returns-bind (is_core (codes "cpu" ++ more)) _ (is_core-Returns more)
          (λ core. stored core (core_stats-Returns ((codes "cpu" ++ more) ∷ rest) enough))

cpu_line-Returns :
    {E : Type 0} (samples : CpuSamples) (line : Bytes) → Returns (cpu_line {E = E} samples line)
unfolding cpu_line
cpu_line-Returns samples line = elim (Bool-cases (has_prefix line (codes "cpu"))) [
  | inr other ↦ (samples, rw other refl)
  | inl h ↦
      let (s, e) = cpu_prefix line h in
      let (more, rest, f) = fields_cpu s in
      let taken : fields line ≡ (codes "cpu" ++ more) ∷ rest = ap fields e ∙ f in
      rw (h, taken) (cpu_words-Returns samples more rest)
]

cpu_lines-Returns :
    {E : Type 0} (samples : CpuSamples) (lines : List Bytes)
    → Returns (cpu_lines {E = E} samples lines)
unfolding cpu_lines
cpu_lines-Returns samples [] = (samples, refl)
cpu_lines-Returns samples (line ∷ lines) =
    Returns-bind (cpu_line samples line) _ (cpu_line-Returns samples line)
      (λ more. cpu_lines-Returns more lines)

net_words-Returns :
    {E : Type 0} (samples : NetSamples) (iface : Bytes) (words : List Bytes)
    → Returns (net_words {E = E} samples iface words)
unfolding net_words
net_words-Returns samples iface words = elim (Bool-cases (ltb (length words) 9)) [
  | inl few ↦ (samples, rw few refl)
  | inr enough ↦ rw enough (
      Returns-bind (number_at 0 words) _ (number_at-Returns words 0 (ground arith)) (λ rx.
        Returns-bind (number_at 8 words) _ (number_at-Returns words 8 (ground arith))
          (λ tx. (_, refl))))
]

net_line-Returns :
    {E : Type 0} (samples : NetSamples) (line : Bytes) → Returns (net_line {E = E} samples line)
unfolding net_line
net_line-Returns samples line =
    let parts : List Bytes = split b':' line in
    elim (Bool-cases (ltb (length parts) 2)) [
      | inl few ↦ (samples, rw few refl)
      | inr enough ↦ rw enough (
          Returns-bind (word_at 0 parts) _ (word_at-Returns parts 0 (ground arith)) (λ iface.
            Returns-bind (word_at 1 parts) _ (word_at-Returns parts 1 (ground arith))
              (λ columns. net_words-Returns samples (trim_space iface) (fields columns))))
    ]

net_lines-Returns :
    {E : Type 0} (samples : NetSamples) (lines : List Bytes)
    → Returns (net_lines {E = E} samples lines)
unfolding net_lines
net_lines-Returns samples [] = (samples, refl)
net_lines-Returns samples (line ∷ lines) =
    Returns-bind (net_line samples line) _ (net_line-Returns samples line)
      (λ more. net_lines-Returns more lines)

-- Whatever bytes /proc/stat and /proc/net/dev hold, `parseCPUSamples` and `parseNetSamples` return samples: no
-- index of theirs is out of range.
pub parse_samples-Returns :
    {E : Type 0} (text : Bytes)
    → Returns (parse_cpu_samples {E = E} text) × Returns (parse_net_samples {E = E} text)
unfolding parse_cpu_samples parse_net_samples
parse_samples-Returns text = (
  Returns-bind (cpu_lines [] (scan text).0) _ (cpu_lines-Returns [] (scan text).0)
      (λ samples. (_, refl)),
  Returns-bind (net_lines [] (drop 2 (scan text).0)) _ (net_lines-Returns [] (drop 2 (scan text).0))
      (λ samples. (_, refl)),
)
