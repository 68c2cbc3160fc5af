-- ===== src/Netlink/Listener.antt =====
-- `openRouteSocket`, `readEvents` and `monitor`. What the system answers and `syscall.ParseNetlinkMessage` are
-- parameters.
use Prim.Native.Nat.{bit_or}
use go_systems_lab.Prelude.{
  ℕ, ◌==◌, List, [], ◌∷◌, ◌++◌, if◌then◌else◌, Option, none, some, Result, ok, err, panic,
}
use go_systems_lab.Bytes.{Bytes, codes, equal}
use go_systems_lab.Netlink.Messages.{Error}
use go_systems_lab.Netlink.Format.{NetlinkMessage, format_netlink_event}

-- One `syscall.Recvfrom`: its errno, or the bytes that it filled.
pub data Receipt : Type 0 where
  refused : ℕ → Receipt
  datagram : Bytes → Receipt

abbrev pub eintr : ℕ
eintr = 4

-- A line on standard output, or the message on standard error for the type of a message.
pub data Report : Type 0 where
  printed : Bytes → Report
  not_decoded : ℕ → Error → Report

-- How the loop stands or ended. `panicked` is a panic of a decoder.
pub data ListenEnd : Type 0 where
  listening unparsed panicked : ListenEnd
  receive_failed : ℕ → ListenEnd

-- `syscall.ParseNetlinkMessage`, `none` for its error.
abbrev pub Parser : Type 0
Parser = Bytes → Option (List NetlinkMessage)

abbrev pub Heard : Type 0
Heard = List Report × ListenEnd

-- One message, in front of what follows.
abbrev pub reported : ℕ → Result Error Bytes → Heard → Heard
reported kind (ok []) rest = rest
reported kind (ok (b ∷ line)) (reports, end) = (printed (b ∷ line) ∷ reports, end)
reported kind (err e) (reports, end) = (not_decoded kind e ∷ reports, end)
reported kind panic rest = ([], panicked)

-- `for _, msg := range msgs`, in front of what follows.
unfoldable pub report_messages :
    List NetlinkMessage → List Report × ListenEnd → List Report × ListenEnd
report_messages [] rest = rest
report_messages (msg ∷ msgs) rest =
    reported msg.kind (format_netlink_event msg) (report_messages msgs rest)

-- A datagram, in front of what follows.
abbrev pub taken : Option (List NetlinkMessage) → Heard → Heard
taken none rest = ([], unparsed)
taken (some msgs) rest = report_messages msgs rest

unfoldable pub read_events : Parser → List Receipt → List Report × ListenEnd
unfolding report_messages
read_events parse [] = ([], listening)
read_events parse (refused errno ∷ receipts) =
    let rest = read_events parse receipts in
    if errno == eintr then rest else ([], receive_failed errno)
read_events parse (datagram bytes ∷ receipts) = taken (parse bytes) (read_events parse receipts)

abbrev pub rtm_grp_link : ℕ
rtm_grp_link = 0x1

abbrev pub rtm_grp_ipv4_if_addr : ℕ
rtm_grp_ipv4_if_addr = 0x10

abbrev pub rtm_grp_ipv4_route : ℕ
rtm_grp_ipv4_route = 0x40

abbrev pub rtm_grp_ipv6_if_addr : ℕ
rtm_grp_ipv6_if_addr = 0x100

abbrev pub rtm_grp_ipv6_route : ℕ
rtm_grp_ipv6_route = 0x400

-- The calls on the socket; `bind_groups` holds the groups.
pub data SocketCall : Type 0 where
  open_socket close_socket : SocketCall
  bind_groups : ℕ → SocketCall

abbrev pub route_groups : ℕ
route_groups =
    bit_or
      (bit_or (bit_or (bit_or rtm_grp_link rtm_grp_ipv4_if_addr) rtm_grp_ipv6_if_addr)
        rtm_grp_ipv4_route)
      rtm_grp_ipv6_route

-- The calls, and the errno for a failure.
unfoldable pub open_route_socket : Option ℕ → Option ℕ → List SocketCall × Option ℕ
open_route_socket (some errno) bound = (open_socket ∷ [], some errno)
open_route_socket none (some errno) =
    (open_socket ∷ bind_groups route_groups ∷ close_socket ∷ [], some errno)
open_route_socket none none = (open_socket ∷ bind_groups route_groups ∷ [], none)

-- What `select` finds first: a signal, or the end of `readEvents`.
pub data Race : Type 0 where
  signalled : Race
  ended : ListenEnd → Race

-- The calls on the socket, and the outcome: the error of opening it, or what came first.
abbrev monitored : List SocketCall × Option ℕ → Race → List SocketCall × Result ℕ Race
monitored (calls, some errno) race = (calls, err errno)
monitored (calls, none) race = (calls ++ (close_socket ∷ []), ok race)

unfoldable pub monitor : Option ℕ → Option ℕ → Race → List SocketCall × Result ℕ Race
unfolding open_route_socket
monitor opened bound race = monitored (open_route_socket opened bound) race

-- The exit status. `readEvents` ends with an error or a panic only.
abbrev pub exit_status : Result ℕ Race → ℕ
exit_status (ok signalled) = 0
exit_status (ok (ended panicked)) = 2
exit_status (ok (ended end)) = 1
exit_status (err errno) = 1
exit_status panic = 2

-- The arguments behind the name of the program.
unfoldable pub main_process : Option ℕ → Option ℕ → Race → List Bytes → List SocketCall × ℕ
unfolding monitor
main_process opened bound race [] = ([], 1)
main_process opened bound race (name ∷ args) =
    if equal name (codes "monitor")
    then ((monitor opened bound race).0, exit_status (monitor opened bound race).1)
    else ([], 1)
