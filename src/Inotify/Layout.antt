-- ===== src/Inotify/Layout.antt =====
-- `syscall.InotifyEvent`: four numbers of 32 bits, with a name behind them that the kernel pads with
-- zero bytes.
use go_systems_lab.Prelude.{
  ℕ, ◌+◌, ◌^◌, ◌<◌, ◌≢◌, ◌≡◌, ◌⊎◌, List, [], ◌∷◌, ◌++◌, Result, ok, ◌>>=◌, length, replicate,
}
use go_systems_lab.Bytes.{Bytes, All}
use go_systems_lab.Bytes.Endian.{load_le, le_bytes}

abbrev pub sizeof_inotify_event : ℕ
sizeof_inotify_event = 16

-- The fields that the programs read; Wd and Cookie stand between them.
pub record InotifyEvent : Type 0 where
  pub mask : ℕ
  pub len : ℕ

-- `(*syscall.InotifyEvent)(unsafe.Pointer(&data[offset]))`
unfoldable pub event_at : {E : Type 0} → ℕ → Bytes → Result E InotifyEvent
event_at offset bytes = do
  mask ← load_le 4 (offset + 4) bytes
  len ← load_le 4 (offset + 12) bytes
  ok (record { mask = mask; len = len })

-- What the kernel reports.
pub record Notice : Type 0 where
  pub wd : ℕ
  pub mask : ℕ
  pub cookie : ℕ
  pub name : Bytes
  pub pad : ℕ

abbrev pub len_of : Notice → ℕ
len_of e = length e.name + e.pad

unfoldable pub encode_notice : Notice → Bytes
encode_notice e =
    le_bytes 4 e.wd
    ++ (le_bytes 4 e.mask
        ++ (le_bytes 4 e.cookie ++ (le_bytes 4 (len_of e) ++ (e.name ++ replicate e.pad 0))))

unfoldable pub encode_notices : List Notice → Bytes
encode_notices [] = []
encode_notices (e ∷ es) = encode_notice e ++ encode_notices es

-- A name holds no zero byte, and one at least stands behind it; the watched path itself has none.
abbrev pub IsNotice : Notice → Type 0
IsNotice e =
    (e.mask < 2 ^ 32) × All (λ b. b ≢ 0) e.name × (((e.name ≡ []) × (e.pad ≡ 0)) ⊎ (0 < e.pad))
