-- ===== src/SharedMemory/RoundTrip.antt =====
-- What `writeMessage` leaves in the mapping, and that `readMessage` finds it there.
use go_systems_lab.Prelude.{
  ℕ, ◌+◌, ◌-◌, ◌%◌, ◌^◌, ◌≡◌, ◌≤◌, refl, sym, ap, ◌∙◌, arith, ok, length, ltb, false, take, drop,
}
use go_systems_lab.Prelude.Int.{ℤ, IsInt64, to_u64, of_u64, to_u64-lt, of_u64-to_u64}
use go_systems_lab.Bytes.{Bytes, slice_from, slice-eq-ok}
use go_systems_lab.Bytes.Blit.{blit, length-blit, take-drop-blit_self, take-drop-blit_before}
use go_systems_lab.Bytes.Endian.{
  le_value, le_bytes, length-le_bytes, le_value-le_bytes, load_le-eq-ok, store_le-eq-ok,
}
use go_systems_lab.SharedMemory.Layout.{
  Error, SharedMessage, mapping_size, max_payload_size, clear, copy_to, read_fields, read_message,
}
use go_systems_lab.SharedMemory.Store.{write_fields, write_message}
use go_systems_lab.SharedMemory.Header.{HasHeader, HasHeader-has_valid_header}

-- The sequence number in a mapping, and the next one.
abbrev pub sequence_of : Bytes → ℕ
sequence_of m = le_value (take 8 (drop 16 m))

abbrev pub next_sequence : Bytes → ℕ
next_sequence m = (sequence_of m + 1) % 2 ^ 64

-- The mapping after the stores of sequence number, time and length.
pub stamped : Bytes → ℤ → Bytes → Bytes
stamped payload now m =
    blit 32 (le_bytes 4 (length payload % 2 ^ 32))
      (blit 24 (le_bytes 8 (to_u64 now)) (blit 16 (le_bytes 8 (next_sequence m)) m))

-- The mapping after all stores.
pub written : Bytes → ℤ → Bytes → Bytes
written payload now m =
    blit 64 payload (blit 64 (clear (drop 64 (stamped payload now m))) (stamped payload now m))

pub length-stamped :
    (payload : Bytes) (now : ℤ) (m : Bytes) → length (stamped payload now m) ≡ length m
unfolding stamped
length-stamped payload now m = omega (arith, length-blit {0})

pub length-written :
    (payload : Bytes) (now : ℤ) (m : Bytes) → length (written payload now m) ≡ length m
unfolding written
length-written payload now m = omega (arith, length-blit {0}, length-stamped)

pub copy_to-eq-ok :
    (off : ℕ) (src m : Bytes) → off ≤ length m → copy_to off src m ≡ ok (blit off src m)
unfolding copy_to slice_from
copy_to-eq-ok off src m h = ground arith

-- Behind the header test no store is out of range.
pub write_fields-eq-written :
    (payload : Bytes) (now : ℤ) (m : Bytes)
    → mapping_size ≤ length m
    → write_fields payload now m ≡ (
      written payload now m,
      ok (record { sequence = next_sequence m; timestamp = now; payload = payload }),
    )
unfolding write_fields written stamped
write_fields-eq-written payload now m h =
    let m1 : Bytes = blit 16 (le_bytes 8 (next_sequence m)) m in
    let m2 : Bytes = blit 24 (le_bytes 8 (to_u64 now)) m1 in
    let m3 : Bytes = blit 32 (le_bytes 4 (length payload % 2 ^ 32)) m2 in
    let m4 : Bytes = blit 64 (clear (drop 64 m3)) m3 in
    rw (
      load_le-eq-ok {E = Error} 8 16 m (omega arith),
      store_le-eq-ok {E = Error} 8 16 (next_sequence m) m (omega arith),
      store_le-eq-ok {E = Error} 8 24 (to_u64 now) m1 (omega (arith, length-blit {0})),
      store_le-eq-ok {E = Error} 4 32 (length payload % 2 ^ 32) m2 (omega (arith, length-blit {0})),
      copy_to-eq-ok 64 (clear (drop 64 m3)) m3 (omega (arith, length-blit {0})),
      copy_to-eq-ok 64 payload m4 (omega (arith, length-blit {0})),
    )

-- The stores of sequence number, time and length keep what lies before and behind them.
stamped_before :
    (a n : ℕ) (payload : Bytes) (now : ℤ) (m : Bytes)
    → a + n ≤ 16
    → take n (drop a (stamped payload now m)) ≡ take n (drop a m)
unfolding stamped
stamped_before a n payload now m h =
    take-drop-blit_before a n 32 _ _ (omega arith)
    ∙ take-drop-blit_before a n 24 _ _ (omega arith)
    ∙ take-drop-blit_before a n 16 _ _ h

written_before :
    (a n : ℕ) (payload : Bytes) (now : ℤ) (m : Bytes)
    → a + n ≤ 64
    → take n (drop a (written payload now m)) ≡ take n (drop a (stamped payload now m))
unfolding written
written_before a n payload now m h =
    take-drop-blit_before a n 64 _ _ h ∙ take-drop-blit_before a n 64 _ _ h

pub written-HasHeader :
    (payload : Bytes) (now : ℤ) {m : Bytes} → HasHeader m → HasHeader (written payload now m)
written-HasHeader payload now {m} h = record {
  long = omega (arith, h.long, length-written payload now m);
  magic =
      written_before 0 8 payload now m (omega arith)
      ∙ stamped_before 0 8 payload now m (omega arith)
      ∙ h.magic;
  version =
      ap le_value (
        written_before 8 4 payload now m (omega arith)
        ∙ stamped_before 8 4 payload now m (omega arith))
      ∙ h.version;
}

module _ (payload : Bytes) (now : ℤ) (m : Bytes) (long : mapping_size ≤ length m) where
  pub sequence-written : le_value (take 8 (drop 16 (written payload now m))) ≡ next_sequence m
  unfolding stamped
  sequence-written =
      ap le_value (
        written_before 16 8 payload now m (omega arith)
        ∙ take-drop-blit_before 16 8 32 _ _ (omega arith)
        ∙ take-drop-blit_before 16 8 24 _ _ (omega arith)
        ∙ take-drop-blit_self 16 8 _ _ (sym (length-le_bytes 8 _))
            (omega (arith, length-le_bytes 8 (next_sequence m))))
      ∙ le_value-le_bytes 8 _ (omega arith)

  time-written : le_value (take 8 (drop 24 (written payload now m))) ≡ to_u64 now
  unfolding stamped
  time-written =
      ap le_value (
        written_before 24 8 payload now m (omega arith)
        ∙ take-drop-blit_before 24 8 32 _ _ (omega arith)
        ∙ take-drop-blit_self 24 8 _ _ (sym (length-le_bytes 8 _))
            (omega (arith, length-le_bytes 8 (to_u64 now), length-blit {0})))
      ∙ le_value-le_bytes 8 _ (omega (arith, to_u64-lt now))

  len-written :
      length payload ≤ max_payload_size
      → le_value (take 4 (drop 32 (written payload now m))) ≡ length payload
  unfolding stamped
  len-written fits =
      ap le_value (
        written_before 32 4 payload now m (omega arith)
        ∙ take-drop-blit_self 32 4 _ _ (sym (length-le_bytes 4 _))
            (omega (arith, length-le_bytes 4 (length payload % 2 ^ 32), length-blit {0})))
      ∙ le_value-le_bytes 4 _ (omega arith)
      ∙ omega arith

  payload-written :
      length payload ≤ max_payload_size
      → take (length payload) (drop 64 (written payload now m)) ≡ payload
  unfolding written
  payload-written fits =
      take-drop-blit_self 64 (length payload) payload _ refl
        (omega (arith, length-blit {0}, length-stamped))

-- The message that a write stores.
abbrev pub stored : Bytes → ℤ → Bytes → SharedMessage
stored payload now m = record { sequence = next_sequence m; timestamp = now; payload = payload }

-- `readMessage` collects the four fields, wherever the length is in range.
pub read_fields-collects :
    (m : Bytes) (len nanos sequence : ℕ) (payload : Bytes)
    → mapping_size ≤ length m
    → len ≤ max_payload_size
    → le_value (take 4 (drop 32 m)) ≡ len
    → le_value (take 8 (drop 24 m)) ≡ nanos
    → le_value (take 8 (drop 16 m)) ≡ sequence
    → take len (drop 64 m) ≡ payload
    → read_fields m
      ≡ ok (record { sequence = sequence; timestamp = of_u64 nanos; payload = payload })
unfolding read_fields
read_fields-collects m len nanos sequence payload long fits el en es ep =
    let small : ltb 4032 len ≡ false = ground arith in
    let back : 64 + len - 64 ≡ len = omega arith in
    rw (
      load_le-eq-ok {E = Error} 4 32 m (omega arith),
      load_le-eq-ok {E = Error} 8 24 m (omega arith),
      load_le-eq-ok {E = Error} 8 16 m (omega arith),
      el,
      small,
      en,
      es,
      slice-eq-ok {E = Error} 64 (64 + len) m (omega arith) (omega arith),
      back,
      ep,
    )

read_fields-written :
    (payload : Bytes) (now : ℤ) (m : Bytes)
    → mapping_size ≤ length m
    → length payload ≤ max_payload_size
    → IsInt64 now
    → read_fields (written payload now m) ≡ ok (stored payload now m)
read_fields-written payload now m long fits i =
    read_fields-collects (written payload now m) (length payload) (to_u64 now) (next_sequence m)
      payload (omega (arith, length-written payload now m)) fits
      (len-written payload now m long fits) (time-written payload now m long)
      (sequence-written payload now m long) (payload-written payload now m long fits)
    ∙ rw (of_u64-to_u64 now i)

pub read_message-HasHeader : {m : Bytes} → HasHeader m → read_message m ≡ read_fields m
unfolding read_message
read_message-HasHeader h = rw (HasHeader-has_valid_header h)

pub read_message-written :
    (payload : Bytes) (now : ℤ) {m : Bytes}
    → HasHeader m
    → length payload ≤ max_payload_size
    → IsInt64 now
    → read_message (written payload now m) ≡ ok (stored payload now m)
read_message-written payload now {m} h fits i =
    read_message-HasHeader (written-HasHeader payload now h)
    ∙ read_fields-written payload now m h.long fits i

pub write_message-HasHeader :
    (payload : Bytes) (now : ℤ) {m : Bytes}
    → HasHeader m
    → length payload ≤ max_payload_size
    → write_message payload now m ≡ (written payload now m, ok (stored payload now m))
unfolding write_message
write_message-HasHeader payload now {m} h fits =
    ground (arith, HasHeader-has_valid_header h, write_fields-eq-written payload now m h.long)
