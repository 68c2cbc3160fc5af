-- ===== src/SharedMemory/Watch.antt =====
-- `runWatch` of labs/10-shared-memory-mmap/main.go: a loop over the ticks of a timer, each of which
-- finds the mapping with some contents.
use go_systems_lab.Prelude.{
  ℕ, ◌≡◌, refl, Bool, true, false, ◌||◌, Bool-cases, inl, inr, List, [], ◌∷◌, ◌==◌, if◌then◌else◌,
  arith, Result, ok, err, panic,
}
use go_systems_lab.Bytes.{Bytes}
use go_systems_lab.SharedMemory.Layout.{Error, SharedMessage, read_message}

-- `message.Sequence == 0 || message.Sequence == lastSeq`
abbrev pub is_old : ℕ → SharedMessage → Bool
is_old last_seq message = message.sequence == 0 || message.sequence == last_seq

-- The messages printed, and how the loop ended: `ok tt` where the ticks ran out.
abbrev Watched : Type 0
Watched = List SharedMessage × Result Error (Unit {0})

abbrev print_unless : Bool → SharedMessage → Watched → Watched
print_unless true message rest = rest
print_unless false message rest = (message ∷ rest.0, rest.1)

unfoldable pub watch_loop : ℕ → List Bytes → List SharedMessage × Result Error (Unit {0})
watch_loop last_seq [] = ([], ok tt)
watch_loop last_seq (mapping ∷ ticks) = elim (read_message mapping) [
  | ok message ↦
      let old = is_old last_seq message in
      print_unless old message (watch_loop (if old then last_seq else message.sequence) ticks)
  | err e ↦ ([], err e)
  | panic ↦ ([], panic)
]

unfoldable pub run_watch : List Bytes → List SharedMessage × Result Error (Unit {0})
unfolding watch_loop
run_watch = watch_loop 0

-- The messages that the ticks show.
abbrev pub ReadAs : List Bytes → List SharedMessage → Type 0
ReadAs [] [] = Unit
ReadAs (m ∷ ms) (x ∷ xs) = (read_message m ≡ ok x) × ReadAs ms xs
ReadAs _ _ = ⊥

-- Those that carry a number at all.
pub numbered : List SharedMessage → List SharedMessage
numbered [] = []
numbered (x ∷ xs) = let rest = numbered xs in if x.sequence == 0 then rest else x ∷ rest

-- Of each run of equal numbers, the first message.
pub changes : ℕ → List SharedMessage → List SharedMessage
changes last_seq [] = []
changes last_seq (x ∷ xs) =
    let rest = changes x.sequence xs in if x.sequence == last_seq then rest else x ∷ rest

numbered-cons :
    (x : SharedMessage) (xs : List SharedMessage)
    → numbered (x ∷ xs) ≡ (if x.sequence == 0 then numbered xs else x ∷ numbered xs)
unfolding numbered
numbered-cons x xs = refl

changes-cons :
    (last_seq : ℕ) (x : SharedMessage) (xs : List SharedMessage)
    → changes last_seq (x ∷ xs)
      ≡ (if x.sequence == last_seq then changes last_seq xs else x ∷ changes x.sequence xs)
unfolding changes
changes-cons last_seq x xs = elim (Bool-cases (x.sequence == last_seq)) [
  | inl w ↦ let same : x.sequence ≡ last_seq = ground arith in rw (w, same)
  | inr w ↦ rw w
]

pub watch_loop-cons :
    (last_seq : ℕ) (m : Bytes) (ms : List Bytes) (x : SharedMessage)
    → read_message m ≡ ok x
    → watch_loop last_seq (m ∷ ms) ≡ (
        if is_old last_seq x
        then watch_loop last_seq ms
        else (x ∷ (watch_loop x.sequence ms).0, (watch_loop x.sequence ms).1))
unfolding watch_loop
watch_loop-cons last_seq m ms x e = elim (Bool-cases (is_old last_seq x)) [
  | inl o ↦ rw (e, watch_loop) (rw o)
  | inr o ↦ rw (e, watch_loop) (rw o)
]

watch_loop-changes :
    (last_seq : ℕ) (ticks : List Bytes) (shown : List SharedMessage)
    → ReadAs ticks shown
    → watch_loop last_seq ticks ≡ (changes last_seq (numbered shown), ok tt)
watch_loop-changes last_seq [] [] r = unfold watch_loop changes numbered in refl
watch_loop-changes last_seq [] (x ∷ xs) r = absurd r
watch_loop-changes last_seq (m ∷ ms) [] r = absurd r
watch_loop-changes last_seq (m ∷ ms) (x ∷ xs) (e, r) =
    let same = watch_loop-changes last_seq ms xs r in
    let new = watch_loop-changes x.sequence ms xs r in
    rw (watch_loop-cons last_seq m ms x e, numbered-cons x xs, same, new)
      (elim (Bool-cases (x.sequence == 0)) [
        | inl z ↦ rw z
        | inr z ↦
            rw (z, changes-cons last_seq x (numbered xs))
              (elim (Bool-cases (x.sequence == last_seq)) [ inl w ↦ rw w | inr w ↦ rw w ])
      ])

-- Where every tick finds a readable message, `watch` prints just these: of the messages whose
-- sequence number is not 0, the first of each run of equal numbers.
pub run_watch-changes :
    (ticks : List Bytes) (shown : List SharedMessage)
    → ReadAs ticks shown
    → run_watch ticks ≡ (changes 0 (numbered shown), ok tt)
unfolding run_watch
run_watch-changes ticks shown r = watch_loop-changes 0 ticks shown r
