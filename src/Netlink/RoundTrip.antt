-- ===== src/Netlink/RoundTrip.antt =====
-- Attributes as the kernel lays them out, read back by `parseRouteAttrs`.
use mathlib.Core.List.{append_assoc, append-nil}
use go_systems_lab.Prelude.{
  ℕ, zero, suc, ◌+◌, ◌*◌, ◌-◌, ◌/◌, ◌%◌, ◌^◌, ◌≡◌, ◌≢◌, ◌≤◌, ◌<◌, refl, ap, ◌∙◌, false, List, [],
  ◌∷◌, ◌++◌, ltb, ok, length, take, drop, replicate, length-append, length-replicate, take-append,
  drop-append, arith,
}
use go_systems_lab.Bytes.{Bytes, All}
use go_systems_lab.Bytes.Endian.{le_value, le_bytes}
use go_systems_lab.Text.Split.{trim_right-append}
use go_systems_lab.Netlink.Attributes.{
  RouteAttr, nl_align, parse_attr, parse_attrs_loop, parse_route_attrs, attr_string,
}
use go_systems_lab.Netlink.Align.{nl_align-eq}
use go_systems_lab.Netlink.Rounds.{len_of, attr_of, parse_attr_within}

-- The zero bytes up to the next multiple of 4.
abbrev padding : Bytes → Bytes
padding payload = replicate ((length payload + 3) / 4 * 4 - length payload) 0

-- `struct rtattr`: length and type, two bytes each, then the payload and its padding.
pub encode_attr : RouteAttr → Bytes
encode_attr attr =
    le_bytes 2 (4 + length attr.payload)
    ++ (le_bytes 2 attr.kind ++ (attr.payload ++ padding attr.payload))

pub encode_attrs : List RouteAttr → Bytes
encode_attrs [] = []
encode_attrs (attr ∷ attrs) = encode_attr attr ++ encode_attrs attrs

-- The length and the type fit their two bytes.
abbrev pub IsAttr : RouteAttr → Type 0
IsAttr attr = (attr.kind < 2 ^ 16) × (4 + length attr.payload < 2 ^ 16)

length-encode_attr :
    (attr : RouteAttr)
    → IsAttr attr
    → length (encode_attr attr) ≡ nl_align (4 + length attr.payload)
unfolding encode_attr le_bytes
length-encode_attr attr h = omega (
  arith,
  nl_align-eq (4 + length attr.payload) (omega arith),
  length-append attr.payload (padding attr.payload),
  length-replicate {0} ((length attr.payload + 3) / 4 * 4 - length attr.payload) zero,
)

word : (n : ℕ) → n < 2 ^ 16 → le_value (n % 256 ∷ n / 256 % 256 ∷ []) ≡ n
unfolding le_value
word n h = omega arith

encode_attr-len_of :
    (attr : RouteAttr) (rest : Bytes)
    → IsAttr attr
    → len_of (encode_attr attr ++ rest) ≡ 4 + length attr.payload
unfolding encode_attr le_bytes
encode_attr-len_of attr rest h = word (4 + length attr.payload) h.1

encode_attr-attr_of :
    (attr : RouteAttr) (rest : Bytes) → IsAttr attr → attr_of (encode_attr attr ++ rest) ≡ attr
unfolding encode_attr le_bytes
encode_attr-attr_of attr rest h =
    let n = encode_attr-len_of attr rest h in
    let kind = word attr.kind h.0 in
    let minus : 4 + length attr.payload - 4 ≡ length attr.payload = omega arith in
    let payload : take (4 + length attr.payload - 4)
          ((attr.payload ++ padding attr.payload) ++ rest)
        ≡ attr.payload =
      rw (minus, append_assoc) (take-append attr.payload (padding attr.payload ++ rest)) in
    rw (n, kind, payload)

parse_attr-encode_attr :
    (attr : RouteAttr) (rest : Bytes)
    → IsAttr attr
    → parse_attr (encode_attr attr ++ rest) ≡ ok (attr, rest)
parse_attr-encode_attr attr rest h =
    let whole : Bytes = encode_attr attr ++ rest in
    let n = encode_attr-len_of attr rest h in
    let l : length whole ≡ nl_align (4 + length attr.payload) + length rest =
      omega (arith, length-encode_attr attr h, length-append (encode_attr attr) rest) in
    let e = nl_align-eq (4 + length attr.payload) (omega arith) in
    let t : ltb (4 + length attr.payload) 4 ≡ false = ground arith in
    let u : ltb (length whole) (4 + length attr.payload) ≡ false = ground arith in
    let v : ltb (length whole) (nl_align (4 + length attr.payload)) ≡ false = ground arith in
    let v' : ltb (length whole) (nl_align (len_of whole)) ≡ false = rw n v in
    let tail : drop (nl_align (len_of whole)) whole ≡ rest =
      rw (n, ← length-encode_attr attr h) (drop-append (encode_attr attr) rest) in
    parse_attr_within whole (omega arith) (rw n t) (rw n u)
    ∙ rw (v', tail) (ap (λ a. ok (a, rest)) (encode_attr-attr_of attr rest h))

parse_attrs_loop-encode_attrs :
    (attrs before : List RouteAttr) (rounds : ℕ)
    → All IsAttr attrs
    → length (encode_attrs attrs) ≤ rounds
    → parse_attrs_loop rounds (encode_attrs attrs) before ≡ ok (before ++ attrs)
unfolding parse_attrs_loop encode_attrs
parse_attrs_loop-encode_attrs [] before zero h r = rw append-nil
parse_attrs_loop-encode_attrs [] before (suc rounds) h r = rw append-nil
parse_attrs_loop-encode_attrs (attr ∷ attrs) before zero (h, hs) r = absurd (
    omega (
      arith,
      length-encode_attr attr h,
      nl_align-eq (4 + length attr.payload) (omega arith),
      length-append (encode_attr attr) (encode_attrs attrs),
    ))
parse_attrs_loop-encode_attrs (attr ∷ attrs) before (suc rounds) (h, hs) r =
    let l = length-append (encode_attr attr) (encode_attrs attrs) in
    let e = length-encode_attr attr h in
    let a = nl_align-eq (4 + length attr.payload) (omega arith) in
    let test : ltb (length (encode_attr attr ++ encode_attrs attrs)) 4 ≡ false = ground arith in
    rw (test, parse_attr-encode_attr attr (encode_attrs attrs) h)
      (parse_attrs_loop-encode_attrs attrs (before ++ (attr ∷ [])) rounds hs (omega arith)
        ∙ ap ok (append_assoc before (attr ∷ []) attrs))

-- `parseRouteAttrs` reads back every list of attributes laid out as the kernel does it, each padded to
-- a multiple of four bytes: the same types and payloads, in the same order.
pub parse_route_attrs-encode_attrs :
    (attrs : List RouteAttr) → All IsAttr attrs → parse_route_attrs (encode_attrs attrs) ≡ ok attrs
unfolding parse_route_attrs
parse_route_attrs-encode_attrs attrs h =
    parse_attrs_loop-encode_attrs attrs [] (length (encode_attrs attrs)) h (omega arith)

replicate-zero : (n : ℕ) → All (λ b. b ≡ 0) (replicate n zero)
replicate-zero zero = tt
replicate-zero (suc n) = (refl, replicate-zero n)

-- `attrString` finds the first attribute of the type asked for, and takes the zero bytes off its end.
pub attr_string-append :
    (before after : List RouteAttr) (kind : ℕ) (name : Bytes) (pad : ℕ)
    → All (λ attr. attr.kind ≢ kind) before
    → All (λ b. b ≢ 0) name
    → attr_string
        (before ++ (record { kind = kind; payload = name ++ replicate pad 0 } ∷ after))
        kind
      ≡ name
unfolding attr_string
attr_string-append [] after kind name pad h k =
    ground (arith, trim_right-append 0 name (replicate pad 0) k (replicate-zero pad))
attr_string-append (attr ∷ before) after kind name pad (h, hs) k =
    ground (arith, attr_string-append before after kind name pad hs k)
