-- ===== src/Netlink/Tests.antt =====
-- Runs of labs/08-netlink-route-monitoring/main.go, and the theorems at concrete inputs.
use go_systems_lab.Prelude.{◌≡◌, ◌≢◌, refl, [], ◌∷◌, ◌++◌, ok, err, panic, length, replicate, arith}
use go_systems_lab.Prelude.Int.{of_u32}
use go_systems_lab.Bytes.{Bytes, codes, equal, byte_at, slice, slice_from}
use go_systems_lab.Bytes.Endian.{load_le, le_value}
use go_systems_lab.Text.Split.{trim_right}
use go_systems_lab.Text.Number.{format_uint, format_int, digits_loop, digit_char}
use go_systems_lab.Netlink.Messages.{
  out_of_rounds, invalid_attribute_length, parse_if_info_msg, parse_if_addr_msg,
}
use go_systems_lab.Netlink.Attributes.{
  RouteAttr, nl_align, parse_attr, parse_attrs_loop, parse_route_attrs, attr_string,
}
use go_systems_lab.Netlink.Address.{to_4, ip_string, attr_ip, attr_address}
use go_systems_lab.Netlink.Format.{
  NetlinkMessage, ifla_ifname, or_else, route_message_name, address_family_name, format_link_event,
  format_addr_event, format_netlink_event,
}
use go_systems_lab.Netlink.Rounds.{Outcome, parse_route_attrs-Outcome}
use go_systems_lab.Netlink.RoundTrip.{encode_attrs, parse_route_attrs-encode_attrs}
use go_systems_lab.Netlink.Safety.{format_netlink_event-ne-panic}
use go_systems_lab.Netlink.Events.{encode_if_info, link_line, format_link_event-encode}

abbrev eth0 : RouteAttr
eth0 = record { kind = 3; payload = codes "eth0" ++ (0 ∷ []) }

abbrev new_link : NetlinkMessage
new_link = record {
  kind = 16;
  body =
      0
      ∷ 0
      ∷ 1
      ∷ 0
      ∷ 2
      ∷ 0
      ∷ 0
      ∷ 0
      ∷ 1
      ∷ 0
      ∷ 0
      ∷ 0
      ∷ 0
      ∷ 0
      ∷ 0
      ∷ 0
      ∷ 9
      ∷ 0
      ∷ 3
      ∷ 0
      ∷ (codes "eth0" ++ (0 ∷ 0 ∷ 0 ∷ 0 ∷ []));
}

link_printed :
    format_netlink_event new_link
    ≡ ok (codes "event=RTM_NEWLINK interface=eth0 index=2 state=up flags=0x1")
unfolding format_netlink_event format_link_event parse_if_info_msg byte_at load_le le_value of_u32
    slice slice_from parse_route_attrs parse_attrs_loop parse_attr nl_align attr_string trim_right
    route_message_name format_int format_uint digits_loop digit_char
link_printed = refl

addr_printed :
    format_netlink_event (record {
      kind = 20;
      body = 2 ∷ 24 ∷ 0 ∷ 0 ∷ 7 ∷ 0 ∷ 0 ∷ 0 ∷ 8 ∷ 0 ∷ 2 ∷ 0 ∷ 192 ∷ 0 ∷ 2 ∷ 10 ∷ [];
    })
    ≡ ok (codes "event=RTM_NEWADDR ifindex=7 address=192.0.2.10/24 family=ipv4")
unfolding format_netlink_event format_addr_event parse_if_addr_msg byte_at load_le le_value slice
    slice_from parse_route_attrs parse_attrs_loop parse_attr nl_align attr_ip attr_address to_4
    ip_string route_message_name address_family_name format_uint digits_loop digit_char
addr_printed = refl

v6_printed :
    ip_string (0x20 ∷ 0x01 ∷ 0x0d ∷ 0xb8 ∷ 0 ∷ 0 ∷ 0 ∷ 0 ∷ 0 ∷ 0 ∷ 0 ∷ 0 ∷ 0 ∷ 0 ∷ 0 ∷ 1 ∷ [])
    ≡ codes "2001:db8::1"
unfolding ip_string to_4 equal format_uint digits_loop digit_char
v6_printed = refl

v6_zero : ip_string (replicate 16 0) ≡ codes "::"
unfolding ip_string to_4 equal format_uint digits_loop digit_char
v6_zero = refl

short_attribute : parse_route_attrs (3 ∷ 0 ∷ 1 ∷ 0 ∷ []) ≡ err (invalid_attribute_length 3)
unfolding parse_route_attrs parse_attrs_loop parse_attr load_le le_value
short_attribute = refl

abbrev one_byte_left : Bytes
one_byte_left = 8 ∷ 0 ∷ 3 ∷ 0 ∷ 1 ∷ 2 ∷ 3 ∷ 4 ∷ 7 ∷ []

parse_route_attrs-Outcome_example : Outcome (length one_byte_left) (parse_route_attrs one_byte_left)
parse_route_attrs-Outcome_example = parse_route_attrs-Outcome one_byte_left (omega arith)

parse_route_attrs-encode_attrs_example :
    parse_route_attrs (encode_attrs (eth0 ∷ eth0 ∷ [])) ≡ ok (eth0 ∷ eth0 ∷ [])
parse_route_attrs-encode_attrs_example =
    parse_route_attrs-encode_attrs (eth0 ∷ eth0 ∷ []) (omega arith)

format_netlink_event-ne-panic_example :
    (format_netlink_event (record { kind = 16; body = 1 ∷ 2 ∷ [] }) ≢ panic)
    × (format_netlink_event (record { kind = 16; body = 1 ∷ 2 ∷ [] }) ≢ err out_of_rounds)
format_netlink_event-ne-panic_example =
    format_netlink_event-ne-panic (record { kind = 16; body = 1 ∷ 2 ∷ [] }) (omega arith)

format_link_event-encode_example :
    format_link_event
      (record { kind = 16; body = encode_if_info 0 1 2 1 0 ++ encode_attrs (eth0 ∷ []) })
    ≡ ok (
        link_line 16 (of_u32 2) 1 (
          or_else
            (attr_string (eth0 ∷ []) ifla_ifname)
            (codes "ifindex:" ++ format_int (of_u32 2))))
format_link_event-encode_example =
    format_link_event-encode 16 0 1 2 1 0 (eth0 ∷ []) (omega arith) (omega arith) (omega arith)
      (omega arith) (omega arith)
