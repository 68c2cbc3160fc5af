-- ===== src/Netlink/Safety.antt =====
-- No message makes the program panic.
use go_systems_lab.Prelude.{
  ℕ, zero, suc, ◌^◌, ◌≡◌, ◌≢◌, ◌≤◌, ◌<◌, inl, inr, refl, Bool-cases, ◌||◌, ◌==◌, ltb, Result, ok,
  err, panic, ◌>>=◌, length, drop, length-drop, List, [], ◌∷◌, arith,
}
use go_systems_lab.Bytes.{Bytes, byte_at, slice_from}
use go_systems_lab.Bytes.Endian.{load_le-eq-ok}
use go_systems_lab.Netlink.Messages.{
  Error, IfInfoMsg, IfAddrMsg, RtMsg, out_of_rounds, if_info_msg_len, if_addr_msg_len, rt_msg_len,
  parse_if_info_msg, parse_if_addr_msg, parse_rt_msg,
}
use go_systems_lab.Netlink.Attributes.{RouteAttr, parse_route_attrs}
use go_systems_lab.Netlink.Rounds.{Outcome, failed, filled, parse_route_attrs-Outcome}
use go_systems_lab.Netlink.Format.{
  NetlinkMessage, nlmsg_done, nlmsg_error, rtm_newlink, rtm_dellink, rtm_newaddr, rtm_deladdr,
  rtm_newroute, rtm_delroute, format_link_event, format_addr_event, format_route_event,
  format_netlink_event,
}

-- Neither a panic nor the end of the rounds.
abbrev pub IsGraceful {ℓ} : {A : Type ℓ} → Result Error A → Type 0
IsGraceful (ok a) = Unit
IsGraceful (err e) = e ≢ out_of_rounds
IsGraceful panic = ⊥

IsGraceful->>= :
    {A B : Type 0} (m : Result Error A) (f : A → Result Error B)
    → IsGraceful m
    → ((a : A) → m ≡ ok a → IsGraceful (f a))
    → IsGraceful (m >>= f)
IsGraceful->>= (ok a) f h k = k a refl
IsGraceful->>= (err e) f h k = h
IsGraceful->>= panic f h k = absurd h

byte_at-eq-ok : (i : ℕ) (s : Bytes) → i < length s → (b : ℕ) × (byte_at {E = Error} i s ≡ ok b)
unfolding byte_at
byte_at-eq-ok i [] h = absurd (omega arith)
byte_at-eq-ok zero (b ∷ s) h = (b, refl)
byte_at-eq-ok (suc i) (b ∷ s) h = byte_at-eq-ok i s (omega arith)

-- The fixed headers are read or refused, and read only from enough bytes.
module _ (m : Bytes) where
  parse_if_info_msg-IsGraceful : IsGraceful (parse_if_info_msg m)
  unfolding parse_if_info_msg
  parse_if_info_msg-IsGraceful = elim (Bool-cases (ltb (length m) if_info_msg_len)) [
    | inl short ↦ rw short (λ p. cc)
    | inr long ↦
        let n : 16 ≤ length m = ground arith in
        let (b0, e0) = byte_at-eq-ok 0 m (omega arith) in
        rw
          (
            long,
            e0,
            load_le-eq-ok {E = Error} 2 2 m (omega arith),
            load_le-eq-ok {E = Error} 4 4 m (omega arith),
            load_le-eq-ok {E = Error} 4 8 m (omega arith),
            load_le-eq-ok {E = Error} 4 12 m (omega arith),
          )
          tt
  ]

  parse_if_addr_msg-IsGraceful : IsGraceful (parse_if_addr_msg m)
  unfolding parse_if_addr_msg
  parse_if_addr_msg-IsGraceful = elim (Bool-cases (ltb (length m) if_addr_msg_len)) [
    | inl short ↦ rw short (λ p. cc)
    | inr long ↦
        let n : 8 ≤ length m = ground arith in
        let (b0, e0) = byte_at-eq-ok 0 m (omega arith) in
        let (b1, e1) = byte_at-eq-ok 1 m (omega arith) in
        let (b2, e2) = byte_at-eq-ok 2 m (omega arith) in
        let (b3, e3) = byte_at-eq-ok 3 m (omega arith) in
        rw (long, e0, e1, e2, e3, load_le-eq-ok {E = Error} 4 4 m (omega arith)) tt
  ]

  parse_rt_msg-IsGraceful : IsGraceful (parse_rt_msg m)
  unfolding parse_rt_msg
  parse_rt_msg-IsGraceful = elim (Bool-cases (ltb (length m) rt_msg_len)) [
    | inl short ↦ rw short (λ p. cc)
    | inr long ↦
        let n : 12 ≤ length m = ground arith in
        let (b0, e0) = byte_at-eq-ok 0 m (omega arith) in
        let (b1, e1) = byte_at-eq-ok 1 m (omega arith) in
        let (b2, e2) = byte_at-eq-ok 2 m (omega arith) in
        let (b3, e3) = byte_at-eq-ok 3 m (omega arith) in
        let (b4, e4) = byte_at-eq-ok 4 m (omega arith) in
        let (b5, e5) = byte_at-eq-ok 5 m (omega arith) in
        let (b6, e6) = byte_at-eq-ok 6 m (omega arith) in
        let (b7, e7) = byte_at-eq-ok 7 m (omega arith) in
        rw (long, e0, e1, e2, e3, e4, e5, e6, e7, load_le-eq-ok {E = Error} 4 8 m (omega arith)) tt
  ]

  parse_if_info_msg_long :
      {info : IfInfoMsg} → parse_if_info_msg m ≡ ok info → if_info_msg_len ≤ length m
  unfolding parse_if_info_msg
  parse_if_info_msg_long e = elim (Bool-cases (ltb (length m) if_info_msg_len)) [
    | inl short ↦ cc (rw short at e)
    | inr long ↦ ground (arith, long)
  ]

  parse_if_addr_msg_long :
      {addr : IfAddrMsg} → parse_if_addr_msg m ≡ ok addr → if_addr_msg_len ≤ length m
  unfolding parse_if_addr_msg
  parse_if_addr_msg_long e = elim (Bool-cases (ltb (length m) if_addr_msg_len)) [
    | inl short ↦ cc (rw short at e)
    | inr long ↦ ground (arith, long)
  ]

  parse_rt_msg_long : {route : RtMsg} → parse_rt_msg m ≡ ok route → rt_msg_len ≤ length m
  unfolding parse_rt_msg
  parse_rt_msg_long e = elim (Bool-cases (ltb (length m) rt_msg_len)) [
    | inl short ↦ cc (rw short at e)
    | inr long ↦ ground (arith, long)
  ]

  slice_from-eq-ok : (n : ℕ) → n ≤ length m → slice_from {E = Error} n m ≡ ok (drop n m)
  unfolding slice_from
  slice_from-eq-ok n h = ground arith

Outcome-IsGraceful :
    {total : ℕ} {result : Result Error (List RouteAttr)} → Outcome total result → IsGraceful result
Outcome-IsGraceful (failed e p ne) = rw p ne
Outcome-IsGraceful (filled attrs p h k) = rw p tt

parse_route_attrs-IsGraceful :
    (bytes : Bytes) → length bytes < 2 ^ 63 → IsGraceful (parse_route_attrs bytes)
parse_route_attrs-IsGraceful bytes h = Outcome-IsGraceful (parse_route_attrs-Outcome bytes h)

-- What the three kinds of message have in common: a header, then the attributes, then a line.
attributes-IsGraceful :
    (m : Bytes) (n : ℕ) (f : List RouteAttr → Result Error Bytes)
    → length m < 2 ^ 63
    → n ≤ length m
    → ((attrs : List RouteAttr) → IsGraceful (f attrs))
    → IsGraceful (slice_from n m >>= λ rest. parse_route_attrs rest >>= f)
attributes-IsGraceful m n f h k g = rw (slice_from-eq-ok m n k) (
    IsGraceful->>= (parse_route_attrs (drop n m)) f
      (parse_route_attrs-IsGraceful (drop n m) (omega (arith, length-drop n m)))
      (λ attrs e. g attrs))

module _ (msg : NetlinkMessage) (h : length msg.body < 2 ^ 63) where
  format_link_event-IsGraceful : IsGraceful (format_link_event msg)
  unfolding format_link_event
  format_link_event-IsGraceful =
      IsGraceful->>= (parse_if_info_msg msg.body) _ (parse_if_info_msg-IsGraceful msg.body)
        (λ info e.
          attributes-IsGraceful msg.body if_info_msg_len _ h (parse_if_info_msg_long msg.body e)
            (λ attrs. tt))

  format_addr_event-IsGraceful : IsGraceful (format_addr_event msg)
  unfolding format_addr_event
  format_addr_event-IsGraceful =
      IsGraceful->>= (parse_if_addr_msg msg.body) _ (parse_if_addr_msg-IsGraceful msg.body)
        (λ addr e.
          attributes-IsGraceful msg.body if_addr_msg_len _ h (parse_if_addr_msg_long msg.body e)
            (λ attrs. tt))

  format_route_event-IsGraceful : IsGraceful (format_route_event msg)
  unfolding format_route_event
  format_route_event-IsGraceful =
      IsGraceful->>= (parse_rt_msg msg.body) _ (parse_rt_msg-IsGraceful msg.body) (λ route e.
        attributes-IsGraceful msg.body rt_msg_len _ h (parse_rt_msg_long msg.body e) (λ attrs. tt))

  format_netlink_event-IsGraceful : IsGraceful (format_netlink_event msg)
  unfolding format_netlink_event
  format_netlink_event-IsGraceful =
      elim (Bool-cases (msg.kind == rtm_newlink || msg.kind == rtm_dellink)) [
        | inl link ↦ rw link format_link_event-IsGraceful
        | inr other ↦
            rw other (elim (Bool-cases (msg.kind == rtm_newaddr || msg.kind == rtm_deladdr)) [
              | inl addr ↦ rw addr format_addr_event-IsGraceful
              | inr other ↦
                  rw other
                    (elim (Bool-cases (msg.kind == rtm_newroute || msg.kind == rtm_delroute)) [
                      | inl route ↦ rw route format_route_event-IsGraceful
                      | inr other ↦ rw other (elim (Bool-cases (msg.kind == nlmsg_done)) [
                        | inl done ↦ rw done tt
                        | inr other ↦ rw other (elim (Bool-cases (msg.kind == nlmsg_error)) [
                          | inl error ↦ rw error tt
                          | inr other ↦ rw other tt
                        ])
                      ])
                    ])
            ])
      ]

IsGraceful-ne :
    {A : Type 0} (r : Result Error A) → IsGraceful r → (r ≢ panic) × (r ≢ err out_of_rounds)
IsGraceful-ne (ok a) h = (λ p. cc, λ p. cc)
IsGraceful-ne (err e) h = (λ p. cc, λ p. h (ground arith))
IsGraceful-ne panic h = absurd h

-- Whatever its type and its bytes, a message of fewer than 2 ^ 63 bytes is decoded to a line or to one of the
-- program's errors: `formatNetlinkEvent` does not panic, and its loop over the attributes ends.
pub format_netlink_event-ne-panic :
    (msg : NetlinkMessage)
    → length msg.body < 2 ^ 63
    → (format_netlink_event msg ≢ panic) × (format_netlink_event msg ≢ err out_of_rounds)
format_netlink_event-ne-panic msg h =
    IsGraceful-ne (format_netlink_event msg) (format_netlink_event-IsGraceful msg h)
