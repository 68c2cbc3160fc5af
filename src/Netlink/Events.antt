-- ===== src/Netlink/Events.antt =====
-- A link message as the kernel sends it, decoded to its line.
use Prim.Native.Nat.{bit_and}
use go_systems_lab.Prelude.{
  ℕ, ◌/◌, ◌%◌, ◌^◌, ◌≡◌, ◌<◌, List, [], ◌∷◌, ◌++◌, ◌==◌, not, if◌then◌else◌, ok, arith,
}
use go_systems_lab.Bits.{bit_and_ones}
use go_systems_lab.Prelude.Int.{ℤ, of_u32}
use go_systems_lab.Bytes.{Bytes, All, codes, byte_at, slice_from}
use go_systems_lab.Bytes.Endian.{load_le, le_value, le_bytes}
use go_systems_lab.Text.Number.{format_uint, format_int}
use go_systems_lab.Netlink.Messages.{Error, parse_if_info_msg, if_info_msg_len}
use go_systems_lab.Netlink.Attributes.{RouteAttr, attr_string}
use go_systems_lab.Netlink.RoundTrip.{IsAttr, encode_attrs, parse_route_attrs-encode_attrs}
use go_systems_lab.Netlink.Format.{ifla_ifname, route_message_name, format_link_event, or_else}

-- `struct ifinfomsg`: family, a byte of padding, type, index, flags, change mask.
pub encode_if_info : ℕ → ℕ → ℕ → ℕ → ℕ → Bytes
encode_if_info family kind index flags change =
    family ∷ 0 ∷ (le_bytes 2 kind ++ (le_bytes 4 index ++ (le_bytes 4 flags ++ le_bytes 4 change)))

double_word :
    (n : ℕ)
    → n < 2 ^ 32
    → le_value (n % 256 ∷ n / 256 % 256 ∷ n / 256 / 256 % 256 ∷ n / 256 / 256 / 256 % 256 ∷ []) ≡ n
unfolding le_value
double_word n h = omega arith

single_word : (n : ℕ) → n < 2 ^ 16 → le_value (n % 256 ∷ n / 256 % 256 ∷ []) ≡ n
unfolding le_value
single_word n h = omega arith

parse_if_info_msg-encode_if_info :
    (family kind index flags change : ℕ) (rest : Bytes)
    → kind < 2 ^ 16
    → index < 2 ^ 32
    → flags < 2 ^ 32
    → change < 2 ^ 32
    → parse_if_info_msg (encode_if_info family kind index flags change ++ rest)
      ≡ ok (record {
        family = family;
        kind = kind;
        index = of_u32 index;
        flags = flags;
        change = change;
      })
unfolding parse_if_info_msg encode_if_info byte_at load_le le_bytes
parse_if_info_msg-encode_if_info family kind index flags change rest hk hi hf hc =
    rw (single_word kind hk, double_word index hi, double_word flags hf, double_word change hc)
      (ground arith)

behind_if_info :
    (family kind index flags change : ℕ) (rest : Bytes)
    → slice_from {E = Error} if_info_msg_len (encode_if_info family kind index flags change ++ rest)
      ≡ ok rest
unfolding slice_from encode_if_info le_bytes
behind_if_info family kind index flags change rest = ground arith

up_or_down :
    (flags : ℕ)
    → (if not (bit_and flags 1 == 0) then codes "up" else codes "down")
      ≡ (if flags % 2 == 1 then codes "up" else codes "down")
up_or_down flags = rw (bit_and_ones 1 flags) (ground arith)

-- The line of a link event, from the fields of the message.
abbrev pub link_line : ℕ → ℤ → ℕ → Bytes → Bytes
link_line kind index flags name =
    codes "event="
    ++ (route_message_name kind
        ++ (codes " interface="
            ++ (name
                ++ (codes " index="
                    ++ (format_int index
                        ++ (codes " state="
                            ++ ((if flags % 2 == 1 then codes "up" else codes "down")
                                ++ (codes " flags=0x" ++ format_uint 16 flags))))))))

-- A link message laid out as the kernel does it, header fields of their widths and attributes
-- padded to four bytes, gives the line with its index as a signed number, its state from the lowest
-- flag bit, its flags in hexadecimal and as name that of the first IFLA_IFNAME attribute, or the index where there is none.
pub format_link_event-encode :
    (message family kind index flags change : ℕ) (attrs : List RouteAttr)
    → kind < 2 ^ 16
    → index < 2 ^ 32
    → flags < 2 ^ 32
    → change < 2 ^ 32
    → All IsAttr attrs
    → format_link_event (record {
      kind = message;
      body = encode_if_info family kind index flags change ++ encode_attrs attrs;
    })
      ≡ ok (
          link_line message (of_u32 index) flags (
            or_else
              (attr_string attrs ifla_ifname)
              (codes "ifindex:" ++ format_int (of_u32 index))))
unfolding format_link_event
format_link_event-encode message family kind index flags change attrs hk hi hf hc h = rw (
  parse_if_info_msg-encode_if_info family kind index flags change (encode_attrs attrs) hk hi hf hc,
  behind_if_info family kind index flags change (encode_attrs attrs),
  parse_route_attrs-encode_attrs attrs h,
  up_or_down flags,
)
