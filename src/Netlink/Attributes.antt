-- ===== src/Netlink/Attributes.antt =====
-- The list of attributes behind a header: `parseRouteAttrs`, `nlAlign`, `attrString`.
use Prim.Native.Nat.{bit_and}
use go_systems_lab.Prelude.{
  ℕ, zero, suc, ◌+◌, ◌-◌, ◌^◌, List, [], ◌∷◌, ◌++◌, ◌==◌, ltb, if◌then◌else◌, Result, ok, err,
  ◌>>=◌, length,
}
use go_systems_lab.Bytes.{Bytes, slice, slice_from}
use go_systems_lab.Bytes.Endian.{load_le}
use go_systems_lab.Text.Split.{trim_right}
use go_systems_lab.Netlink.Messages.{
  Error, invalid_attribute_length, attribute_exceeds, alignment_exceeds, out_of_rounds,
}

abbrev pub rt_attr_len : ℕ
rt_attr_len = 4

pub record RouteAttr : Type 0 where
  pub kind : ℕ
  pub payload : Bytes

-- `(length + 3) & ^3` on an int, which is 64 bits wide.
unfoldable pub nl_align : ℕ → ℕ
nl_align n = bit_and (n + 4 - 1) (2 ^ 64 - 4)

-- One round of the loop: the attribute at the front and the bytes behind it. `make` and `copy`
-- give the attribute bytes of its own.
unfoldable pub parse_attr : Bytes → Result Error (RouteAttr × Bytes)
parse_attr bytes = do
  len ← load_le 2 0 bytes
  kind ← load_le 2 2 bytes
  if ltb len rt_attr_len
      then err (invalid_attribute_length len)
      else if ltb (length bytes) len
      then err (attribute_exceeds len (length bytes))
      else do
        payload ← slice rt_attr_len len bytes
        let step = nl_align len
        if ltb (length bytes) step then err (alignment_exceeds step (length bytes)) else do
          rest ← slice_from step bytes
          ok (record { kind = kind; payload = payload }, rest)

-- The loop with a bound on its rounds.
unfoldable pub parse_attrs_loop : ℕ → Bytes → List RouteAttr → Result Error (List RouteAttr)
parse_attrs_loop zero bytes attrs =
    if ltb (length bytes) rt_attr_len then ok attrs else err out_of_rounds
parse_attrs_loop (suc rounds) bytes attrs =
    let more : Result Error (List RouteAttr) =
      parse_attr bytes >>= (λ (attr, rest). parse_attrs_loop rounds rest (attrs ++ (attr ∷ []))) in
    if ltb (length bytes) rt_attr_len then ok attrs else more

-- Each round takes four bytes at least, so there are no more rounds than bytes.
unfoldable pub parse_route_attrs : Bytes → Result Error (List RouteAttr)
parse_route_attrs bytes = parse_attrs_loop (length bytes) bytes []

unfoldable pub attr_string : List RouteAttr → ℕ → Bytes
attr_string [] kind = []
attr_string (attr ∷ attrs) kind =
    if attr.kind == kind then trim_right 0 attr.payload else attr_string attrs kind
