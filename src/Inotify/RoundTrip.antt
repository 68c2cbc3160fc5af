-- ===== src/Inotify/RoundTrip.antt =====
-- The events that the kernel lays out in the buffer are read back.
use go_systems_lab.Prelude.{
  ℕ, zero, suc, ◌+◌, ◌-◌, ◌%◌, ◌^◌, ◌≤◌, ◌<◌, ◌≡◌, ◌≢◌, refl, sym, ap, ◌∙◌, List, [], ◌∷◌, ◌++◌,
  ltb, inl, inr, true, false, ok, length, length-append, length-replicate, take, drop, take-append,
  replicate, arith, map,
}
use mathlib.Core.List.{append_assoc, append-nil}
use go_systems_lab.Bytes.{Bytes, All, slice-eq-ok}
use go_systems_lab.Bytes.Endian.{load_le, le_value, le_bytes, le_value-le_bytes}
use go_systems_lab.Text.Split.{cut-append}
use go_systems_lab.Inotify.Layout.{
  event_at, Notice, len_of, encode_notice, encode_notices, IsNotice,
}
use go_systems_lab.Inotify.Events.{
  EventInfo, Stuck, before_zero, name_at, name_behind, event_round, parse_loop, parse_events,
}

-- What a program is to see of a notice.
abbrev pub info : Notice → EventInfo
info e = record { mask = e.mask; name = e.name }

pub drop-append_at :
    (before s : Bytes) (k n : ℕ) → n ≡ length before + k → drop n (before ++ s) ≡ drop k s
drop-append_at [] s k n e = ap (λ m. drop m s) (omega arith)
drop-append_at (b ∷ before) s k zero e = absurd (omega arith)
drop-append_at (b ∷ before) s k (suc n) e = drop-append_at before s k n (omega arith)

pub load_le-append :
    {E : Type 0} (w k : ℕ) (before s : Bytes)
    → load_le {E = E} w (length before + k) (before ++ s) ≡ load_le w k s
unfolding load_le
load_le-append {E} w k before s =
    let behind = drop-append_at before s k (length before + k) refl in
    ground (arith, behind, length-append before s)

pub length-encode_notice : (e : Notice) → length (encode_notice e) ≡ 16 + len_of e
unfolding encode_notice le_bytes
length-encode_notice e =
    omega (arith, length-append e.name (replicate e.pad 0), length-replicate {0} e.pad zero)

mask_loads :
    {E : Type 0} (e : Notice) (rest : Bytes)
    → e.mask < 2 ^ 32
    → load_le {E = E} 4 4 (encode_notice e ++ rest) ≡ ok e.mask
unfolding load_le encode_notice le_bytes
mask_loads {E} e rest h =
    let value : le_value (le_bytes 4 e.mask) ≡ e.mask = le_value-le_bytes 4 e.mask (omega arith) in
    ground (arith, value)

len_loads :
    {E : Type 0} (e : Notice) (rest : Bytes)
    → len_of e < 2 ^ 32
    → load_le {E = E} 4 12 (encode_notice e ++ rest) ≡ ok (len_of e)
unfolding load_le encode_notice le_bytes
len_loads {E} e rest h =
    let value : le_value (le_bytes 4 (len_of e)) ≡ len_of e =
      le_value-le_bytes 4 (len_of e) (omega arith) in
    ground (arith, value)

pub event_at-encode_notice :
    {E : Type 0} (before rest : Bytes) (e : Notice)
    → e.mask < 2 ^ 32
    → len_of e < 2 ^ 32
    → event_at {E = E} (length before) (before ++ (encode_notice e ++ rest))
      ≡ ok (record { mask = e.mask; len = len_of e })
unfolding event_at
event_at-encode_notice {E} before rest e h k = rw (
  load_le-append {E = E} 4 4 before (encode_notice e ++ rest),
  load_le-append {E = E} 4 12 before (encode_notice e ++ rest),
  mask_loads {E = E} e rest h,
  len_loads {E = E} e rest k,
)

before_zero-append :
    (name : Bytes) (pad : ℕ)
    → All (λ b. b ≢ 0) name
    → 0 < pad
    → before_zero (name ++ replicate pad 0) ≡ name
unfolding before_zero
before_zero-append name zero h k = absurd (omega arith)
before_zero-append name (suc pad) h k = rw (cut-append 0 name (replicate pad 0) h, before_zero)

pub name_bytes :
    (before rest : Bytes) (e : Notice)
    → take (len_of e) (drop (length before + 16) (before ++ (encode_notice e ++ rest)))
      ≡ e.name ++ replicate e.pad 0
unfolding encode_notice le_bytes
name_bytes before rest e =
    let whole : Bytes = e.name ++ replicate e.pad 0 in
    let l : length whole ≡ len_of e =
      omega (arith, length-append e.name (replicate e.pad 0), length-replicate {0} e.pad zero) in
    rw (drop-append_at before (encode_notice e ++ rest) 16 (length before + 16) refl, ← l)
      (take-append whole rest)

name_behind-encode_notice :
    (before rest : Bytes) (e : Notice)
    → All (λ b. b ≢ 0) e.name
    → 0 < e.pad
    → length (before ++ (encode_notice e ++ rest)) < 2 ^ 32
    → name_behind (length before) (len_of e) (before ++ (encode_notice e ++ rest)) ≡ ok e.name
unfolding name_behind
name_behind-encode_notice before rest e plain padded small =
    let whole : Bytes = before ++ (encode_notice e ++ rest) in
    let fits : length before + 16 + len_of e ≤ length whole = omega (
      arith,
      length-append before (encode_notice e ++ rest),
      length-append (encode_notice e) rest,
      length-encode_notice e,
    ) in
    let lo : (length before + 16) % 2 ^ 32 ≡ length before + 16 = omega arith in
    let hi : (length before + 16 + len_of e) % 2 ^ 32 ≡ length before + 16 + len_of e =
      omega arith in
    let between : length before + 16 + len_of e - (length before + 16) ≡ len_of e = omega arith in
    rw (
      lo,
      hi,
      slice-eq-ok {E = Stuck} (length before + 16) (length before + 16 + len_of e) whole
          (omega arith) fits,
      between,
      name_bytes before rest e,
      before_zero-append e.name e.pad plain padded,
    )

name_at-encode_notice :
    (before rest : Bytes) (e : Notice)
    → IsNotice e
    → length (before ++ (encode_notice e ++ rest)) < 2 ^ 32
    → name_at (length before) (len_of e) (before ++ (encode_notice e ++ rest)) ≡ ok e.name
unfolding name_at
name_at-encode_notice before rest e (_, _, inl (name, pad)) small =
    let none_behind : len_of e ≡ 0 = omega (arith, ap length name) in
    rw none_behind (ap ok (sym name))
name_at-encode_notice before rest e (_, plain, inr padded) small =
    let test : ltb 0 (len_of e) ≡ true = ground arith in
    rw test (name_behind-encode_notice before rest e plain padded small)

event_round-encode_notice :
    (before rest : Bytes) (e : Notice)
    → IsNotice e
    → length (before ++ (encode_notice e ++ rest)) < 2 ^ 32
    → event_round (before ++ (encode_notice e ++ rest)) (length before)
      ≡ ok (info e, length before + length (encode_notice e))
unfolding event_round
event_round-encode_notice before rest e h small =
    let fits : length before + 16 + len_of e < 2 ^ 32 = omega (
      arith,
      length-append before (encode_notice e ++ rest),
      length-append (encode_notice e) rest,
      length-encode_notice e,
    ) in
    let step : (length before + (16 + len_of e) % 2 ^ 32) % 2 ^ 32
        ≡ length before + length (encode_notice e) =
      omega (arith, length-encode_notice e) in
    rw (
      event_at-encode_notice {E = Stuck} before rest e h.0 (omega arith),
      name_at-encode_notice before rest e h small,
      step,
    )

parse_loop-encode_notices :
    (es : List Notice) (rounds : ℕ) (before rest buf : Bytes) (n offset : ℕ)
    (events : List EventInfo)
    → All IsNotice es
    → buf ≡ before ++ (encode_notices es ++ rest)
    → length buf < 2 ^ 32
    → offset ≡ length before
    → n ≡ length before + length (encode_notices es)
    → length (encode_notices es) < rounds
    → parse_loop rounds buf n offset events ≡ ok (events ++ map info es)
unfolding parse_loop encode_notices
parse_loop-encode_notices es zero before rest buf n offset events h e small o m r =
    absurd (omega arith)
parse_loop-encode_notices [] (suc rounds) before rest buf n offset events h e small o m r =
    let end : ltb offset (n % 2 ^ 32) ≡ false = ground arith in rw (end, append-nil)
parse_loop-encode_notices (first ∷ es) (suc rounds) before rest buf n offset events (h, hs) e small
      o m r =
    let one : Bytes = encode_notice first in
    let later : Bytes = encode_notices es in
    let shape : buf ≡ before ++ (one ++ (later ++ rest)) =
      e ∙ ap (λ l. before ++ l) (append_assoc one later rest) in
    let next_shape : buf ≡ (before ++ one) ++ (later ++ rest) =
      shape ∙ sym (append_assoc before one (later ++ rest)) in
    let total : length buf ≡ length before + length one + length later + length rest = omega (
      arith,
      ap length shape,
      length-append before (one ++ (later ++ rest)),
      length-append one (later ++ rest),
      length-append later rest,
    ) in
    let size : n ≡ length before + length one + length later =
      omega (arith, m, length-append one later) in
    let header : length one ≡ 16 + len_of first = length-encode_notice first in
    let whole : n % 2 ^ 32 ≡ n = omega arith in
    let more : ltb offset n ≡ true = ground arith in
    let room : ltb ((n + 2 ^ 32 - offset) % 2 ^ 32) 16 ≡ false = ground arith in
    let round : event_round buf offset ≡ ok (info first, length before + length one) =
      rw (shape, o)
        (event_round-encode_notice before (later ++ rest) first h (rw (← shape) small)) in
    rw (whole, more, room, round)
      (parse_loop-encode_notices es rounds (before ++ one) rest buf n (length before + length one)
          (events ++ (info first ∷ [])) hs next_shape small (sym (length-append before one))
          (omega (arith, length-append before one)) (omega (arith, length-append one later))
        ∙ ap ok (append_assoc events (info first ∷ []) (map info es)))

-- The events that the kernel lays out one behind the other, with padded names, at the front of a buffer
-- smaller than 4 GiB are read back, in order, each with its mask and its name; what an earlier read
-- left behind them does not matter.
pub parse_events-encode_notices :
    (es : List Notice) (stale : Bytes)
    → All IsNotice es
    → length (encode_notices es ++ stale) < 2 ^ 32
    → parse_events (encode_notices es ++ stale) (length (encode_notices es)) ≡ ok (map info es)
unfolding parse_events
parse_events-encode_notices es stale h small =
    parse_loop-encode_notices es (suc (length (encode_notices es))) [] stale
      (encode_notices es ++ stale) (length (encode_notices es)) 0 [] h refl small refl (omega arith)
      (omega arith)
