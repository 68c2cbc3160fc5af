-- ===== src/Netlink/Messages.antt =====
-- The fixed headers: `ifInfoMsg`, `ifAddrMsg`, `rtMsg` and the functions that read them.
use go_systems_lab.Prelude.{ℕ, ltb, if◌then◌else◌, Result, ok, err, ◌>>=◌, length}
use go_systems_lab.Prelude.Int.{ℤ, of_u32}
use go_systems_lab.Bytes.{Bytes, byte_at}
use go_systems_lab.Bytes.Endian.{load_le}

abbrev pub if_info_msg_len : ℕ
if_info_msg_len = 16

abbrev pub if_addr_msg_len : ℕ
if_addr_msg_len = 8

abbrev pub rt_msg_len : ℕ
rt_msg_len = 12

pub record IfInfoMsg : Type 0 where
  pub family : ℕ
  pub kind : ℕ
  pub index : ℤ
  pub flags : ℕ
  pub change : ℕ

pub record IfAddrMsg : Type 0 where
  pub family : ℕ
  pub prefix_len : ℕ
  pub flags : ℕ
  pub scope : ℕ
  pub index : ℕ

pub record RtMsg : Type 0 where
  pub family : ℕ
  pub dst_len : ℕ
  pub src_len : ℕ
  pub tos : ℕ
  pub table : ℕ
  pub protocol : ℕ
  pub scope : ℕ
  pub kind : ℕ
  pub flags : ℕ

pub data Error : Type 0 where
  -- "ifinfomsg too short: %d" and its like
  if_info_too_short if_addr_too_short rt_too_short : ℕ → Error
  -- "invalid attribute length: %d"
  invalid_attribute_length : ℕ → Error
  -- "attribute length %d exceeds remaining bytes %d"
  attribute_exceeds : ℕ → ℕ → Error
  -- "attribute alignment %d exceeds remaining bytes %d"
  alignment_exceeds : ℕ → ℕ → Error
  -- No error of the program: the rounds that the model of the loop was given are used up.
  out_of_rounds : Error

unfoldable pub parse_if_info_msg : Bytes → Result Error IfInfoMsg
parse_if_info_msg message =
    if ltb (length message) if_info_msg_len then err (if_info_too_short (length message)) else do
      family ← byte_at 0 message
      kind ← load_le 2 2 message
      index ← load_le 4 4 message
      flags ← load_le 4 8 message
      change ← load_le 4 12 message
      ok (record {
        family = family;
        kind = kind;
        index = of_u32 index;
        flags = flags;
        change = change;
      })

unfoldable pub parse_if_addr_msg : Bytes → Result Error IfAddrMsg
parse_if_addr_msg message =
    if ltb (length message) if_addr_msg_len then err (if_addr_too_short (length message)) else do
      family ← byte_at 0 message
      prefix_len ← byte_at 1 message
      flags ← byte_at 2 message
      scope ← byte_at 3 message
      index ← load_le 4 4 message
      ok (record {
        family = family;
        prefix_len = prefix_len;
        flags = flags;
        scope = scope;
        index = index;
      })

unfoldable pub parse_rt_msg : Bytes → Result Error RtMsg
parse_rt_msg message =
    if ltb (length message) rt_msg_len then err (rt_too_short (length message)) else do
      family ← byte_at 0 message
      dst_len ← byte_at 1 message
      src_len ← byte_at 2 message
      tos ← byte_at 3 message
      table ← byte_at 4 message
      protocol ← byte_at 5 message
      scope ← byte_at 6 message
      kind ← byte_at 7 message
      flags ← load_le 4 8 message
      ok (record {
        family = family;
        dst_len = dst_len;
        src_len = src_len;
        tos = tos;
        table = table;
        protocol = protocol;
        scope = scope;
        kind = kind;
        flags = flags;
      })
