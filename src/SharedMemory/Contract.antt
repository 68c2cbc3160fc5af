-- ===== src/SharedMemory/Contract.antt =====
-- What a user of the mapping relies on: initialisation, round trip, refusals, numbering.
use go_systems_lab.Prelude.{
  ℕ, zero, suc, ◌≡◌, ◌≢◌, ◌≤◌, ◌<◌, refl, ap, ◌∙◌, ◌⊎◌, inl, inr, true, false, ltb, [], ◌∷◌, arith,
  ok, err, panic, length, take, drop, length-map,
}
use native.Mathlib.Decide.{dec_lt}
use go_systems_lab.Prelude.Int.{ℤ, pos, IsInt64, of_u64}
use go_systems_lab.Bytes.{Bytes}
use go_systems_lab.Bytes.Blit.{
  blit, length-blit, take-drop-blit_self, take-drop-blit_before, drop-blit_after,
}
use go_systems_lab.Bytes.Endian.{le_value, le_bytes, store_le-eq-ok, load_le-eq-ok}
use go_systems_lab.SharedMemory.Layout.{
  Error, invalid_mapping, payload_too_large, length_too_large, mapping_size, max_payload_size,
  magic_value, clear, has_valid_header, read_fields, read_message,
}
use go_systems_lab.SharedMemory.Store.{init_mapping, write_message}
use go_systems_lab.SharedMemory.Header.{
  HasHeader, has_valid_header-HasHeader, HasHeader-has_valid_header, has_valid_header-cases,
}
use go_systems_lab.SharedMemory.RoundTrip.{
  stored, next_sequence, copy_to-eq-ok, read_fields-collects, read_message-HasHeader,
  read_message-written, write_message-HasHeader, written-HasHeader,
}

clear_zero : (a n : ℕ) (m : Bytes) → le_value (take n (drop a (clear m))) ≡ 0
unfolding clear le_value
clear_zero zero zero m = refl
clear_zero zero (suc n) [] = refl
clear_zero zero (suc n) (x ∷ m) = omega (arith, clear_zero zero n m)
clear_zero (suc a) zero m = refl
clear_zero (suc a) (suc n) [] = refl
clear_zero (suc a) (suc n) (x ∷ m) = clear_zero a (suc n) m

-- The mapping that `initMapping` leaves.
pub initialised : Bytes → Bytes
initialised m = blit 8 (le_bytes 4 1) (blit 0 magic_value (clear m))

length-clear : (m : Bytes) → length (clear m) ≡ length m
unfolding clear
length-clear m = length-map m (λ _. 0)

pub length-initialised : (m : Bytes) → length (initialised m) ≡ length m
unfolding initialised
length-initialised m = omega (arith, length-blit {0}, length-clear m)

pub init_mapping-eq-initialised :
    (m : Bytes) → mapping_size ≤ length m → init_mapping m ≡ (initialised m, ok tt)
unfolding init_mapping initialised
init_mapping-eq-initialised m h = rw (
  copy_to-eq-ok 0 magic_value (clear m) (omega arith),
  store_le-eq-ok {E = Error} 4 8 1 (blit 0 magic_value (clear m))
      (omega (arith, length-blit {0}, length-clear m)),
)

pub initialised-HasHeader : (m : Bytes) → mapping_size ≤ length m → HasHeader (initialised m)
unfolding initialised le_bytes le_value
initialised-HasHeader m h = record {
  long = omega (arith, length-blit {0}, length-clear m);
  magic =
      take-drop-blit_before 0 8 8 _ _ (omega arith)
      ∙ take-drop-blit_self 0 8 magic_value _ refl (omega (arith, length-clear m));
  version =
      ap le_value
        (take-drop-blit_self 8 4 _ _ refl (omega (arith, length-blit {0}, length-clear m)));
}

pub initialised_zero :
    (a n : ℕ) (m : Bytes) → 12 ≤ a → le_value (take n (drop a (initialised m))) ≡ 0
unfolding initialised le_bytes
initialised_zero a n m h =
    ap (λ (s : Bytes). le_value (take n s))
      (drop-blit_after a 8 _ _ h ∙ drop-blit_after a 0 magic_value _ (omega arith))
    ∙ clear_zero a n m

read_message-initialised :
    (m : Bytes)
    → mapping_size ≤ length m
    → read_message (initialised m) ≡ ok (record { sequence = 0; timestamp = pos 0; payload = [] })
unfolding of_u64
read_message-initialised m h =
    read_message-HasHeader (initialised-HasHeader m h)
    ∙ read_fields-collects (initialised m) 0 0 0 [] (omega (arith, length-initialised m))
        (omega arith) (initialised_zero 32 4 m (omega arith))
        (initialised_zero 24 8 m (omega arith)) (initialised_zero 16 8 m (omega arith)) refl

-- On every slice of at least 4096 bytes, `initMapping` succeeds, keeps the length, and leaves a
-- mapping whose header is valid and from which `readMessage` reads sequence number 0, time 0 and
-- no payload.
pub read_message-init_mapping :
    (m : Bytes)
    → mapping_size ≤ length m
    → ((init_mapping m).1 ≡ ok tt)
      × (length (init_mapping m).0 ≡ length m)
      × (has_valid_header (init_mapping m).0 ≡ ok true)
      × (read_message (init_mapping m).0
          ≡ ok (record { sequence = 0; timestamp = pos 0; payload = [] }))
read_message-init_mapping m h = rw (init_mapping-eq-initialised m h) (
  refl,
  length-initialised m,
  HasHeader-has_valid_header (initialised-HasHeader m h),
  read_message-initialised m h,
)

-- In a mapping with a valid header, a payload of at most 4032 bytes is written with the next
-- sequence number (modulo 2 ^ 64), and `readMessage` then returns just the message that
-- `writeMessage` returned: that number, the time and the payload. The header stays valid.
pub read_message-write_message :
    (payload : Bytes) (now : ℤ) (m : Bytes)
    → has_valid_header m ≡ ok true
    → length payload ≤ max_payload_size
    → IsInt64 now
    → ((write_message payload now m).1
        ≡ ok (record { sequence = next_sequence m; timestamp = now; payload = payload }))
      × (read_message (write_message payload now m).0
          ≡ ok (record { sequence = next_sequence m; timestamp = now; payload = payload }))
      × (has_valid_header (write_message payload now m).0 ≡ ok true)
read_message-write_message payload now m valid fits i =
    let h = has_valid_header-HasHeader m valid in
    rw (write_message-HasHeader payload now h fits) (
      refl,
      read_message-written payload now h fits i,
      HasHeader-has_valid_header (written-HasHeader payload now h),
    )

write_message_ok :
    (payload : Bytes) (now : ℤ) {m : Bytes}
    → HasHeader m
    → length payload ≤ max_payload_size
    → (write_message payload now m).1 ≡ ok (stored payload now m)
write_message_ok payload now h fits = rw (write_message-HasHeader payload now h fits)

write_message_large :
    (payload : Bytes) (now : ℤ) (m : Bytes)
    → has_valid_header m ≡ ok true
    → max_payload_size < length payload
    → write_message payload now m ≡ (m, err (payload_too_large (length payload) max_payload_size))
unfolding write_message
write_message_large payload now m valid large = ground arith

write_message_invalid :
    (payload : Bytes) (now : ℤ) (m : Bytes)
    → has_valid_header m ≡ ok false
    → write_message payload now m ≡ (m, err invalid_mapping)
unfolding write_message
write_message_invalid payload now m invalid = rw invalid

-- A `writeMessage` that fails has changed no byte of the mapping, and it fails for one of two
-- reasons: the header is not valid and the error is `errInvalidMapping`, or the header is valid, the payload has more
-- than 4032 bytes and the error names both sizes.
pub write_message_failed :
    (payload : Bytes) (now : ℤ) (m : Bytes) {e : Error}
    → (write_message payload now m).1 ≡ err e
    → ((write_message payload now m).0 ≡ m)
      × (((has_valid_header m ≡ ok false) × (e ≡ invalid_mapping))
          ⊎ ((has_valid_header m ≡ ok true)
              × (max_payload_size < length payload)
              × (e ≡ payload_too_large (length payload) max_payload_size)))
write_message_failed payload now m f = elim (has_valid_header-cases m) [
  | inl invalid ↦ ground (arith, write_message_invalid payload now m invalid)
  | inr valid ↦ elim (dec_lt max_payload_size (length payload)) [
    | yes large ↦ ground (arith, write_message_large payload now m valid large)
    | no small ↦
        let h = has_valid_header-HasHeader m valid in
        cc (write_message_ok payload now h (omega arith))
  ]
]

pub read_fields_large :
    (m : Bytes)
    → mapping_size ≤ length m
    → max_payload_size < le_value (take 4 (drop 32 m))
    → read_fields m ≡ err (length_too_large (le_value (take 4 (drop 32 m))))
unfolding read_fields
read_fields_large m long large =
    let test : ltb 4032 (le_value (take 4 (drop 32 m))) ≡ true = ground arith in
    rw (load_le-eq-ok {E = Error} 4 32 m (omega arith), test)

read_message_invalid :
    (m : Bytes) → has_valid_header m ≡ ok false → read_message m ≡ err invalid_mapping
unfolding read_message
read_message_invalid m invalid = rw invalid

read_fields-ne-panic : (m : Bytes) → mapping_size ≤ length m → read_fields m ≢ panic
read_fields-ne-panic m long = elim (dec_lt max_payload_size (le_value (take 4 (drop 32 m)))) [
  | yes large ↦ λ p. cc (read_fields_large m long large)
  | no small ↦ λ p. cc (read_fields-collects m _ _ _ _ long (omega arith) refl refl refl refl)
]

-- Whatever bytes the slice holds and however short it is, neither `readMessage` nor
-- `writeMessage` panics.
pub messages-ne-panic :
    (payload : Bytes) (now : ℤ) (m : Bytes)
    → (read_message m ≢ panic) × ((write_message payload now m).1 ≢ panic)
messages-ne-panic payload now m = elim (has_valid_header-cases m) [
  | inl invalid ↦ (
    λ p. cc (read_message_invalid m invalid),
    λ p. ground (arith, write_message_invalid payload now m invalid),
  )
  | inr valid ↦
      let h = has_valid_header-HasHeader m valid in
      (
        rw (read_message-HasHeader h) (read_fields-ne-panic m h.long),
        elim (dec_lt max_payload_size (length payload)) [
          | yes large ↦ λ p. ground (arith, write_message_large payload now m valid large)
          | no small ↦ λ p. cc (write_message_ok payload now h (omega arith))
        ],
      )
]
