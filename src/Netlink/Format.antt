-- ===== src/Netlink/Format.antt =====
-- `formatNetlinkEvent`: the line that is printed for a message, "" for none.
use Prim.Native.Nat.{bit_and}
use go_systems_lab.Prelude.{
  ℕ, [], ◌∷◌, ◌++◌, ◌||◌, ◌==◌, not, if◌then◌else◌, Result, ok, ◌>>=◌, length,
}
use go_systems_lab.Bytes.{Bytes, codes, slice_from}
use go_systems_lab.Text.Number.{format_uint, format_int}
use go_systems_lab.Netlink.Messages.{
  Error, parse_if_info_msg, parse_if_addr_msg, parse_rt_msg, if_info_msg_len, if_addr_msg_len,
  rt_msg_len,
}
use go_systems_lab.Netlink.Attributes.{parse_route_attrs, attr_string}
use go_systems_lab.Netlink.Address.{af_inet, af_inet6, attr_ip}

abbrev pub rtm_newlink : ℕ
rtm_newlink = 16

abbrev pub rtm_dellink : ℕ
rtm_dellink = 17

abbrev pub rtm_newaddr : ℕ
rtm_newaddr = 20

abbrev pub rtm_deladdr : ℕ
rtm_deladdr = 21

abbrev pub rtm_newroute : ℕ
rtm_newroute = 24

abbrev pub rtm_delroute : ℕ
rtm_delroute = 25

abbrev pub nlmsg_error : ℕ
nlmsg_error = 2

abbrev pub nlmsg_done : ℕ
nlmsg_done = 3

abbrev pub ifla_ifname : ℕ
ifla_ifname = 3

abbrev pub ifa_address : ℕ
ifa_address = 1

abbrev pub ifa_local : ℕ
ifa_local = 2

abbrev pub rta_dst : ℕ
rta_dst = 1

abbrev iff_up : ℕ
iff_up = 1

-- The parts of `syscall.NetlinkMessage` that the program reads: the header's type and the bytes
-- behind the header.
pub record NetlinkMessage : Type 0 where
  pub kind : ℕ
  pub body : Bytes

unfoldable pub route_message_name : ℕ → Bytes
route_message_name kind =
    if kind == rtm_newlink
    then codes "RTM_NEWLINK"
    else if kind == rtm_dellink
    then codes "RTM_DELLINK"
    else if kind == rtm_newaddr
    then codes "RTM_NEWADDR"
    else if kind == rtm_deladdr
    then codes "RTM_DELADDR"
    else if kind == rtm_newroute
    then codes "RTM_NEWROUTE"
    else if kind == rtm_delroute
    then codes "RTM_DELROUTE"
    else codes "type:" ++ format_uint 10 kind

unfoldable pub address_family_name : ℕ → Bytes
address_family_name family =
    if family == af_inet
    then codes "ipv4"
    else if family == af_inet6
    then codes "ipv6"
    else codes "family:" ++ format_uint 10 family

-- `if s == "" { s = t }`
abbrev pub or_else : Bytes → Bytes → Bytes
or_else [] t = t
or_else (b ∷ s) t = b ∷ s

unfoldable pub format_link_event : NetlinkMessage → Result Error Bytes
format_link_event msg = do
  info ← parse_if_info_msg msg.body
  rest ← slice_from if_info_msg_len msg.body
  attrs ← parse_route_attrs rest
  let name = or_else (attr_string attrs ifla_ifname) (codes "ifindex:" ++ format_int info.index)
  let state = if not (bit_and info.flags iff_up == 0) then codes "up" else codes "down"
  ok (
      codes "event="
      ++ (route_message_name msg.kind
          ++ (codes " interface="
              ++ (name
                  ++ (codes " index="
                      ++ (format_int info.index
                          ++ (codes " state="
                              ++ (state ++ (codes " flags=0x" ++ format_uint 16 info.flags)))))))))

unfoldable pub format_addr_event : NetlinkMessage → Result Error Bytes
format_addr_event msg = do
  addr ← parse_if_addr_msg msg.body
  rest ← slice_from if_addr_msg_len msg.body
  attrs ← parse_route_attrs rest
  let ip =
      or_else (attr_ip attrs ifa_local addr.family)
        (or_else (attr_ip attrs ifa_address addr.family) (codes "<unknown>"))
  ok (
      codes "event="
      ++ (route_message_name msg.kind
          ++ (codes " ifindex="
              ++ (format_uint 10 addr.index
                  ++ (codes " address="
                      ++ (ip
                          ++ (b'/'
                              ∷ (format_uint 10 addr.prefix_len
                                  ++ (codes " family=" ++ address_family_name addr.family)))))))))

unfoldable pub format_route_event : NetlinkMessage → Result Error Bytes
format_route_event msg = do
  route ← parse_rt_msg msg.body
  rest ← slice_from rt_msg_len msg.body
  attrs ← parse_route_attrs rest
  let dst = or_else (attr_ip attrs rta_dst route.family) (codes "default")
  ok (
      codes "event="
      ++ (route_message_name msg.kind
          ++ (codes " dst="
              ++ (dst
                  ++ (b'/'
                      ∷ (format_uint 10 route.dst_len
                          ++ (codes " family="
                              ++ (address_family_name route.family
                                  ++ (codes " table="
                                      ++ (format_uint 10 route.table
                                          ++ (codes " protocol="
                                              ++ (format_uint 10 route.protocol
                                                  ++ (codes " scope="
                                                      ++ format_uint 10 route.scope)))))))))))))

unfoldable pub format_netlink_event : NetlinkMessage → Result Error Bytes
format_netlink_event msg =
    if msg.kind == rtm_newlink || msg.kind == rtm_dellink
    then format_link_event msg
    else if msg.kind == rtm_newaddr || msg.kind == rtm_deladdr
    then format_addr_event msg
    else if msg.kind == rtm_newroute || msg.kind == rtm_delroute
    then format_route_event msg
    else if msg.kind == nlmsg_done
    then ok []
    else if msg.kind == nlmsg_error
    then ok (codes "netlink error message received")
    else ok (
        codes "event="
        ++ (route_message_name msg.kind ++ (codes " bytes=" ++ format_uint 10 (length msg.body))))
