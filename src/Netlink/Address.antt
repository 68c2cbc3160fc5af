-- ===== src/Netlink/Address.antt =====
-- `attrIP`, with what it uses of package net: `IP.To4` and `IP.String`.
use go_systems_lab.Prelude.{
  ℕ, suc, ◌+◌, ◌*◌, ◌&&◌, List, [], ◌∷◌, ◌++◌, ◌==◌, ltb, leb, if◌then◌else◌, Option, none, some,
  length, take, drop, replicate,
}
use go_systems_lab.Bytes.{Bytes, codes, equal}
use go_systems_lab.Text.Number.{format_uint}
use go_systems_lab.Netlink.Attributes.{RouteAttr}

abbrev pub af_inet : ℕ
af_inet = 2

abbrev pub af_inet6 : ℕ
af_inet6 = 10

abbrev ipv4_len : ℕ
ipv4_len = 4

abbrev pub ipv6_len : ℕ
ipv6_len = 16

-- The prefix of an IPv4 address in IPv6 form.
abbrev v4_in_v6 : Bytes
v4_in_v6 = replicate 10 0 ++ (0xff ∷ 0xff ∷ [])

-- `ip.To4()`, `none` for nil.
unfoldable pub to_4 : Bytes → Option Bytes
to_4 ip =
    if length ip == ipv4_len
    then some ip
    else if length ip == ipv6_len && equal (take 12 ip) v4_in_v6
    then some (drop 12 ip)
    else none

-- Numbers in a base with a separator between them.
unfoldable pub joined : ℕ → ℕ → List ℕ → Bytes
joined base sep [] = []
joined base sep (n ∷ []) = format_uint base n
joined base sep (n ∷ m ∷ ns) = format_uint base n ++ (sep ∷ joined base sep (m ∷ ns))

-- The 16-bit groups of an IPv6 address.
unfoldable pub groups : Bytes → List ℕ
groups [] = []
groups (hi ∷ []) = []
groups (hi ∷ lo ∷ bytes) = (hi * 256 + lo) ∷ groups bytes

leading_zeros : List ℕ → ℕ
leading_zeros [] = 0
leading_zeros (g ∷ gs) = let more = leading_zeros gs in if g == 0 then suc more else 0

-- The first of the longest runs of at least two zero groups: where it starts, and its length.
zero_run : ℕ → ℕ → ℕ → List ℕ → ℕ × ℕ
unfolding leading_zeros
zero_run i start len [] = (start, len)
zero_run i start len (g ∷ gs) =
    let n = leading_zeros (g ∷ gs) in
    let better = leb 2 n && ltb len n in
    zero_run (i + 1) (if better then i else start) (if better then n else len) gs

-- The text of an IPv6 address that is no IPv4 address: lower-case hexadecimal groups, with "::" for
-- the run of zeros.
unfoldable pub ipv6_text : Bytes → Bytes
unfolding groups joined zero_run
ipv6_text ip =
    let gs = groups ip in
    let (start, len) = zero_run 0 0 0 gs in
    if len == 0
    then joined 16 b':' gs
    else joined 16 b':' (take start gs) ++ (codes "::" ++ joined 16 b':' (drop (start + len) gs))

unfoldable pub hex_bytes : Bytes → Bytes
hex_bytes [] = []
hex_bytes (b ∷ bs) =
    (if ltb b 16 then b'0' ∷ format_uint 16 b else format_uint 16 b) ++ hex_bytes bs

-- `ip.String()`.
unfoldable pub ip_string : Bytes → Bytes
unfolding joined ipv6_text hex_bytes
ip_string ip = if length ip == 0 then codes "<nil>" else elim (to_4 ip) [
  | some v4 ↦ joined 10 b'.' v4
  | none ↦ if length ip == ipv6_len then ipv6_text ip else b'?' ∷ hex_bytes ip
]

-- The text of one attribute of the type asked for, if it holds an address of the family.
unfoldable pub attr_address : ℕ → Bytes → Option Bytes
attr_address family payload =
    if family == af_inet
    then elim (to_4 payload) [ none ↦ none | some v4 ↦ some (ip_string v4) ]
    else if family == af_inet6
    then (if leb ipv6_len (length payload) then some (ip_string (take ipv6_len payload)) else none)
    else none

-- "" where there is no such attribute.
unfoldable pub attr_ip : List RouteAttr → ℕ → ℕ → Bytes
attr_ip [] kind family = []
attr_ip (attr ∷ attrs) kind family =
    let rest = attr_ip attrs kind family in
    if attr.kind == kind
    then elim (attr_address family attr.payload) [ none ↦ rest | some text ↦ text ]
    else rest
