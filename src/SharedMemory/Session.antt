-- ===== src/SharedMemory/Session.antt =====
-- A mapping over a run of writes, with or without a watcher that polls it.
use go_systems_lab.Prelude.{ℕ, ◌+◌, ◌%◌, ◌^◌, ◌≡◌, ◌≤◌, refl, List, [], ◌∷◌, arith, ok, length}
use go_systems_lab.Prelude.Int.{ℤ, IsInt64}
use go_systems_lab.Prelude.Prog.{Prog, ◌>>◌, done}
use go_systems_lab.Bytes.{Bytes, All}
use go_systems_lab.SharedMemory.Layout.{Error, mapping_size, max_payload_size, read_message}
use go_systems_lab.SharedMemory.Store.{init_mapping, write_message}
use go_systems_lab.SharedMemory.Header.{HasHeader}
use go_systems_lab.SharedMemory.RoundTrip.{
  written, sequence_of, next_sequence, sequence-written, read_message-written,
  write_message-HasHeader, written-HasHeader,
}
use go_systems_lab.SharedMemory.Contract.{
  initialised, init_mapping-eq-initialised, initialised-HasHeader, initialised_zero,
}

-- The `write` commands of a session, in order; a failure ends it.
pub write_all : List (Bytes × ℤ) → Prog Bytes Error (Unit {0})
write_all [] = done tt
write_all ((payload, now) ∷ ws) = do write_message payload now; write_all ws

abbrev pub Fits : Bytes × ℤ → Type 0
Fits (payload, now) = (length payload ≤ max_payload_size) × IsInt64 now

-- A run of fitting writes succeeds, and counts.
write_all_counts :
    (ws : List (Bytes × ℤ)) (k : ℕ) (m : Bytes)
    → HasHeader m
    → All Fits ws
    → sequence_of m ≡ k % 2 ^ 64
    → (last : Bytes) × (write_all ws m ≡ (last, ok tt))
      × HasHeader last
      × (sequence_of last ≡ (k + length ws) % 2 ^ 64)
unfolding write_all
write_all_counts [] k m h fits e = (m, refl, h, omega arith)
write_all_counts ((payload, now) ∷ ws) k m h (fit, fits) e =
    let (last, r, h', s) =
      write_all_counts ws (k + 1) (written payload now m) (written-HasHeader payload now h) fits
        (omega (arith, sequence-written payload now m h.long)) in
    rw (write_message-HasHeader payload now h fit.0) (last, r, h', omega arith)

-- From a fresh mapping, a run of n writes that fit, followed by one more, succeeds, and `readMessage`
-- then returns the last message with sequence number n + 1 (modulo 2 ^ 64).
pub read_message-write_all :
    (ws : List (Bytes × ℤ)) (payload : Bytes) (now : ℤ) (m : Bytes)
    → mapping_size ≤ length m
    → All Fits ws
    → length payload ≤ max_payload_size
    → IsInt64 now
    → read_message ((init_mapping >> (write_all ws >> write_message payload now)) m).0
      ≡ ok (record { sequence = (length ws + 1) % 2 ^ 64; timestamp = now; payload = payload })
read_message-write_all ws payload now m long fits fit i =
    let (last, r, h, s) =
      write_all_counts ws 0 (initialised m) (initialised-HasHeader m long) fits
        (initialised_zero 16 8 m (omega arith)) in
    let next : next_sequence last ≡ (length ws + 1) % 2 ^ 64 = omega arith in
    rw (init_mapping-eq-initialised m long, r, write_message-HasHeader payload now h fit, ← next)
      (read_message-written payload now h fit i)
