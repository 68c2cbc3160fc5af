-- ===== src/Netlink/Runs.antt =====
-- The listener on three datagrams, and the theorem on it.
use go_systems_lab.Prelude.{◌≡◌, refl, [], ◌∷◌, none, some, err, arith}
use mathlib.Core.Path.{subst}
use go_systems_lab.Bytes.{All, codes}
use go_systems_lab.Prelude.{length, ◌≤◌}
use go_systems_lab.Netlink.Messages.{if_info_too_short, parse_if_info_msg}
use go_systems_lab.Netlink.Format.{NetlinkMessage, format_netlink_event, format_link_event}
use go_systems_lab.Netlink.Listener.{
  refused, datagram, printed, not_decoded, listening, Parser, read_events, open_socket, bind_groups,
  close_socket, signalled, monitor,
}
use go_systems_lab.Netlink.Listening.{BodiesFit, heard, end_of, reports_of, read_events-reports_of}

abbrev link : NetlinkMessage
link = record { kind = 16; body = [] }

abbrev error_message : NetlinkMessage
error_message = record { kind = 2; body = [] }

-- Every datagram holds these two messages.
abbrev parse_two : Parser
parse_two bytes = some (link ∷ error_message ∷ [])

two_messages : read_events parse_two (refused 4 ∷ datagram (codes "x") ∷ []) ≡ (
  not_decoded 16 (if_info_too_short 0) ∷ printed (codes "netlink error message received") ∷ [],
  listening,
)
unfolding read_events format_netlink_event format_link_event parse_if_info_msg
two_messages = refl

not_allowed :
    monitor none (some 1) signalled ≡ (open_socket ∷ bind_groups 0x551 ∷ close_socket ∷ [], err 1)
unfolding monitor
not_allowed = refl

parse_two-BodiesFit : BodiesFit parse_two
parse_two-BodiesFit bytes msgs e =
    let same : link ∷ error_message ∷ [] ≡ msgs = cc in
    subst (All (λ (msg : NetlinkMessage). length msg.body ≤ length bytes)) same (omega arith)

read_events-reports_of_example : read_events parse_two (refused 4 ∷ datagram (codes "x") ∷ []) ≡ (
  reports_of (heard parse_two (refused 4 ∷ datagram (codes "x") ∷ [])),
  end_of parse_two (refused 4 ∷ datagram (codes "x") ∷ []),
)
read_events-reports_of_example =
    read_events-reports_of parse_two (refused 4 ∷ datagram (codes "x") ∷ []) parse_two-BodiesFit
      (tt, (omega arith, tt))
