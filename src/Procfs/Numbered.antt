-- ===== src/Procfs/Numbered.antt =====
-- The samples of cores that are numbered without a gap, and looking them up.
use go_systems_lab.Prelude.{
  ℕ, suc, ◌+◌, ◌≤◌, ◌<◌, ◌≡◌, ◌≢◌, refl, sym, ap, ◌∙◌, List, [], ◌∷◌, ◌++◌, map, true, false,
  Bool-cases, ◌⊎◌, inl, inr, none, some, length, length-append, arith,
}
use mathlib.Core.List.{append_assoc, append-nil}
use go_systems_lab.Bytes.{Bytes, codes, equal, equal_iff}
use go_systems_lab.Bytes.Dict.{lookup, insert}
use go_systems_lab.Text.Number.{value, format_uint, parse_uint, parse_uint-format_uint, max_uint64}
use go_systems_lab.Procfs.Samples.{CoreStats, CpuSamples}
use go_systems_lab.Procfs.Readback.{CoreLine, core_name, stats_of, samples_of}

-- Cores with consecutive numbers.
abbrev pub IsNumbered : ℕ → List CoreLine → Type 0
IsNumbered k [] = Unit
IsNumbered k (c ∷ cores) = (c.number ≡ k) × IsNumbered (suc k) cores

abbrev pub name_of : ℕ → Bytes
name_of i = codes "cpu" ++ format_uint 10 i

abbrev pub entries : List CoreLine → CpuSamples
entries cores = map (λ c. (core_name c, stats_of c)) cores

format_uint_injective :
    (m n : ℕ) → m ≤ max_uint64 → n ≤ max_uint64 → format_uint 10 m ≡ format_uint 10 n → m ≡ n
format_uint_injective m n h k e =
    let read : value m ≡ value n =
      sym (parse_uint-format_uint 10 0 m (omega arith) (omega arith) h)
      ∙ ap (parse_uint 10) e
      ∙ parse_uint-format_uint 10 0 n (omega arith) (omega arith) k in
    cc

names_differ :
    (m n : ℕ) → m ≤ max_uint64 → n ≤ max_uint64 → m ≢ n → equal (name_of m) (name_of n) ≡ false
names_differ m n h k d = elim (Bool-cases (equal (name_of m) (name_of n))) [
  | inr e ↦ e
  | inl e ↦
      let names : name_of m ≡ name_of n = (equal_iff (name_of m) (name_of n)).0 e in
      absurd (d (format_uint_injective m n h k cc))
]

-- A number outside of those of the cores.
lookup_outside :
    (k n : ℕ) (cores : List CoreLine)
    → IsNumbered k cores
    → k + length cores ≤ max_uint64
    → n ≤ max_uint64
    → ((n < k) ⊎ (k + length cores ≤ n))
    → lookup (name_of n) (entries cores) ≡ none
unfolding lookup core_name
lookup_outside k n [] h room bound out = refl
lookup_outside k n (c ∷ cores) (e, h) room bound out =
    let other : equal (name_of c.number) (name_of n) ≡ false =
      names_differ c.number n (omega arith) bound (λ q. apart q out) in
    rw other (lookup_outside (suc k) n cores h (omega arith) bound (later out))
  where
    apart : c.number ≡ n → (n < k) ⊎ (k + suc (length cores) ≤ n) → ⊥
    apart q (inl below) = omega arith
    apart q (inr above) = omega arith

    later : (n < k) ⊎ (k + suc (length cores) ≤ n) → (n < suc k) ⊎ (suc k + length cores ≤ n)
    later (inl below) = inl (omega arith)
    later (inr above) = inr (omega arith)

insert_new :
    (key : Bytes) (v : CoreStats) (m : CpuSamples)
    → lookup key m ≡ none
    → insert key v m ≡ m ++ ((key, v) ∷ [])
unfolding lookup insert
insert_new key v [] h = refl
insert_new key v ((k, w) ∷ m) h = ground (arith, insert_new key v m)

pub lookup-append :
    (key : Bytes) (m more : CpuSamples)
    → lookup key m ≡ none
    → lookup key (m ++ more) ≡ lookup key more
unfolding lookup
lookup-append key [] more h = refl
lookup-append key ((k, w) ∷ m) more h = ground (arith, lookup-append key m more)

pub lookup_head :
    (c : CoreLine) (cores : List CoreLine)
    → lookup (core_name c) (entries (c ∷ cores)) ≡ some (stats_of c)
unfolding lookup
lookup_head c cores =
    let same : equal (core_name c) (core_name c) ≡ true =
      (equal_iff (core_name c) (core_name c)).1 refl in
    rw same refl

pub entries-append : (c d : List CoreLine) → entries (c ++ d) ≡ entries c ++ entries d
entries-append [] d = refl
entries-append (x ∷ c) d = ap (◌∷◌ (core_name x, stats_of x)) (entries-append c d)

pub IsNumbered-snoc :
    (k : ℕ) (before : List CoreLine) (c : CoreLine)
    → IsNumbered k before
    → c.number ≡ k + length before
    → IsNumbered k (before ++ (c ∷ []))
IsNumbered-snoc k [] c h e = (omega arith, tt)
IsNumbered-snoc k (b ∷ before) c (e', h) e = (e', IsNumbered-snoc (suc k) before c h (omega arith))

-- The next core of some that are numbered from 0 is not among them.
pub next_outside :
    (before : List CoreLine) (c : CoreLine)
    → IsNumbered 0 before
    → c.number ≡ length before
    → length before ≤ max_uint64
    → lookup (core_name c) (entries before) ≡ none
unfolding core_name
next_outside before c h e room =
    rw e (lookup_outside 0 (length before) before h (omega arith) room (inr (omega arith)))

-- Cores that are numbered from 0 have a sample each, in order.
pub samples_of-entries :
    (before cores : List CoreLine)
    → IsNumbered 0 before
    → IsNumbered (length before) cores
    → length before + length cores ≤ max_uint64
    → samples_of (entries before) cores ≡ entries (before ++ cores)
unfolding samples_of
samples_of-entries before [] h k room = ap entries (sym (append-nil before))
samples_of-entries before (c ∷ cores) h (e, k) room =
    let longer : length (before ++ (c ∷ [])) ≡ suc (length before) =
      length-append before (c ∷ []) ∙ omega arith in
    ap (λ m. samples_of m cores)
      (insert_new (core_name c) (stats_of c) (entries before)
          (next_outside before c h e (omega arith))
        ∙ sym (entries-append before (c ∷ [])))
    ∙ samples_of-entries (before ++ (c ∷ [])) cores (IsNumbered-snoc 0 before c h (omega arith))
        (rw longer k) (omega arith)
    ∙ ap entries (append_assoc before (c ∷ []) cores)
