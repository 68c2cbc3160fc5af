-- ===== src/Netlink/Listening.antt =====
-- What the listener reports over any number of datagrams.
use go_systems_lab.Prelude.{
  ℕ, ◌^◌, ◌≤◌, ◌≡◌, ◌≢◌, refl, sym, ap, ◌∙◌, List, [], ◌∷◌, ◌++◌, ◌==◌, Bool-cases, inl, inr,
  if◌then◌else◌, none, some, Option-cases, Result, ok, err, panic, length, arith,
}
use mathlib.Core.List.{append_assoc}
use go_systems_lab.Bytes.{Bytes, All}
use go_systems_lab.Netlink.Messages.{Error}
use go_systems_lab.Netlink.Format.{NetlinkMessage, format_netlink_event}
use go_systems_lab.Netlink.Safety.{format_netlink_event-ne-panic}
use go_systems_lab.Netlink.Listener.{
  Receipt, refused, datagram, eintr, Report, printed, not_decoded, ListenEnd, listening, unparsed,
  receive_failed, Parser, reported, report_messages, read_events,
}

-- The messages that arrive before the first failure other than an interrupted call.
unfoldable pub heard : Parser → List Receipt → List NetlinkMessage
heard parse [] = []
heard parse (refused errno ∷ receipts) =
    let rest = heard parse receipts in if errno == eintr then rest else []
heard parse (datagram bytes ∷ receipts) =
    let rest = heard parse receipts in elim (parse bytes) [ none ↦ [] | some msgs ↦ msgs ++ rest ]

-- The first failure.
unfoldable pub end_of : Parser → List Receipt → ListenEnd
end_of parse [] = listening
end_of parse (refused errno ∷ receipts) =
    let rest = end_of parse receipts in if errno == eintr then rest else receive_failed errno
end_of parse (datagram bytes ∷ receipts) =
    let rest = end_of parse receipts in elim (parse bytes) [ none ↦ unparsed | some _ ↦ rest ]

-- What one message gives: nothing, a line, or a message on standard error.
abbrev report_by : ℕ → Result Error Bytes → List Report
report_by kind (ok []) = []
report_by kind (ok (b ∷ line)) = printed (b ∷ line) ∷ []
report_by kind (err e) = not_decoded kind e ∷ []
report_by kind panic = []

unfoldable pub report_of : NetlinkMessage → List Report
report_of msg = report_by msg.kind (format_netlink_event msg)

unfoldable pub reports_of : List NetlinkMessage → List Report
unfolding report_of
reports_of [] = []
reports_of (msg ∷ msgs) = report_of msg ++ reports_of msgs

-- The body of a message that is parsed is a part of the datagram.
abbrev pub BodiesFit : Parser → Type 0
BodiesFit parse =
    (bytes : Bytes) (msgs : List NetlinkMessage)
    → parse bytes ≡ some msgs
    → All (λ (msg : NetlinkMessage). length msg.body ≤ length bytes) msgs

-- A datagram fits into the buffer.
abbrev pub IsReceipt : Receipt → Type 0
IsReceipt (refused errno) = Unit
IsReceipt (datagram bytes) = length bytes ≤ 2 ^ 16

reported-report_by :
    (kind : ℕ) (r : Result Error Bytes) (reports : List Report) (end : ListenEnd)
    → r ≢ panic
    → reported kind r (reports, end) ≡ (report_by kind r ++ reports, end)
reported-report_by kind (ok []) reports end h = refl
reported-report_by kind (ok (b ∷ line)) reports end h = refl
reported-report_by kind (err e) reports end h = refl
reported-report_by kind panic reports end h = absurd (h refl)

report_messages-reports_of :
    (msgs : List NetlinkMessage) (n : ℕ) (reports : List Report) (end : ListenEnd)
    → All (λ (msg : NetlinkMessage). length msg.body ≤ n) msgs
    → n ≤ 2 ^ 16
    → report_messages msgs (reports, end) ≡ (reports_of msgs ++ reports, end)
unfolding report_messages reports_of
report_messages-reports_of [] n reports end h small = refl
report_messages-reports_of (msg ∷ msgs) n reports end (h, hs) small =
    let (decodes, _) = format_netlink_event-ne-panic msg (omega arith) in
    ap (reported msg.kind (format_netlink_event msg))
      (report_messages-reports_of msgs n reports end hs small)
    ∙ reported-report_by msg.kind (format_netlink_event msg) (reports_of msgs ++ reports) end
        decodes
    ∙ ap (λ l. (l, end)) (sym (append_assoc (report_of msg) (reports_of msgs) reports))

reports_of-append :
    (first second : List NetlinkMessage)
    → reports_of (first ++ second) ≡ reports_of first ++ reports_of second
unfolding reports_of
reports_of-append [] second = refl
reports_of-append (msg ∷ first) second =
    ap (λ l. report_of msg ++ l) (reports_of-append first second)
    ∙ sym (append_assoc (report_of msg) (reports_of first) (reports_of second))

-- For any datagrams that fit into the buffer: each message that arrives before the first failure is reported, in
-- order, by its line or, if it cannot be decoded, on standard error, and nothing else is; an interrupted call is
-- made again; the loop ends with the first other error of the call, or of a datagram that is no netlink
-- message, and never by a panic.
pub read_events-reports_of :
    (parse : Parser) (receipts : List Receipt)
    → BodiesFit parse
    → All IsReceipt receipts
    → read_events parse receipts ≡ (reports_of (heard parse receipts), end_of parse receipts)
unfolding read_events heard end_of reports_of
read_events-reports_of parse [] fit h = refl
read_events-reports_of parse (refused errno ∷ receipts) fit (_, hs) =
    elim (Bool-cases (errno == eintr)) [
      | inl again ↦ rw again (read_events-reports_of parse receipts fit hs)
      | inr failure ↦ rw failure refl
    ]
read_events-reports_of parse (datagram bytes ∷ receipts) fit (small, hs) =
    elim (Option-cases (parse bytes)) [
      | inl wrong ↦ rw (wrong, heard, end_of) refl
      | inr (msgs, parsed) ↦
          rw
            (
              parsed,
              heard,
              end_of,
              reports_of-append msgs (heard parse receipts),
              read_events-reports_of parse receipts fit hs,
            )
            (report_messages-reports_of msgs (length bytes) (reports_of (heard parse receipts))
              (end_of parse receipts) (fit bytes msgs parsed) small)
    ]
