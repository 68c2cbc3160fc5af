-- ===== src/Netlink/Rounds.antt =====
-- `parseRouteAttrs` on any bytes: it ends, does not panic, and its attributes fill the input.
use go_systems_lab.Prelude.{
  ℕ, zero, suc, ◌+◌, ◌-◌, ◌^◌, ◌≡◌, ◌≢◌, ◌≤◌, ◌<◌, inl, inr, true, false, Bool-cases, List, [], ◌∷◌,
  ◌++◌, ltb, if◌then◌else◌, Result, ok, err, length, take, drop, length-take, length-drop, arith,
}
use mathlib.Core.Path.{subst}
use native.Mathlib.Decide.{dec_lt}
use go_systems_lab.Bytes.{Bytes, slice-eq-ok, slice_from}
use go_systems_lab.Bytes.Endian.{le_value, load_le-eq-ok}
use go_systems_lab.Netlink.Messages.{
  Error, invalid_attribute_length, attribute_exceeds, alignment_exceeds, out_of_rounds,
}
use go_systems_lab.Netlink.Attributes.{
  RouteAttr, nl_align, parse_attr, parse_attrs_loop, parse_route_attrs,
}
use go_systems_lab.Netlink.Align.{nl_align-eq}

abbrev pub len_of : Bytes → ℕ
len_of bytes = le_value (take 2 (drop 0 bytes))

abbrev pub attr_of : Bytes → RouteAttr
attr_of bytes = record {
  kind = le_value (take 2 (drop 2 bytes));
  payload = take (len_of bytes - 4) (drop 4 bytes);
}

-- What a round does, by the length field.
pub data Round (bytes : Bytes) : Type 0 where
  refused : (e : Error) → parse_attr bytes ≡ err e → e ≢ out_of_rounds → Round bytes
  taken :
      (attr : RouteAttr) (rest : Bytes)
      → parse_attr bytes ≡ ok (attr, rest)
      → length rest + nl_align (4 + length attr.payload) ≡ length bytes
      → length rest < length bytes
      → Round bytes

module _ (bytes : Bytes) (h : 4 ≤ length bytes) where
  parse_attr_short :
      ltb (len_of bytes) 4 ≡ true → parse_attr bytes ≡ err (invalid_attribute_length (len_of bytes))
  unfolding parse_attr
  parse_attr_short t = rw (
    load_le-eq-ok {E = Error} 2 0 bytes (omega arith),
    load_le-eq-ok {E = Error} 2 2 bytes (omega arith),
    t,
  )

  parse_attr_over :
      ltb (len_of bytes) 4 ≡ false
      → ltb (length bytes) (len_of bytes) ≡ true
      → parse_attr bytes ≡ err (attribute_exceeds (len_of bytes) (length bytes))
  unfolding parse_attr
  parse_attr_over t u = rw (
    load_le-eq-ok {E = Error} 2 0 bytes (omega arith),
    load_le-eq-ok {E = Error} 2 2 bytes (omega arith),
    t,
    u,
  )

  pub parse_attr_within :
      ltb (len_of bytes) 4 ≡ false
      → ltb (length bytes) (len_of bytes) ≡ false
      → parse_attr bytes ≡ (
          if ltb (length bytes) (nl_align (len_of bytes))
          then err (alignment_exceeds (nl_align (len_of bytes)) (length bytes))
          else ok (attr_of bytes, drop (nl_align (len_of bytes)) bytes))
  unfolding parse_attr slice_from
  parse_attr_within t u =
      rw
        (
          load_le-eq-ok {E = Error} 2 0 bytes (omega arith),
          load_le-eq-ok {E = Error} 2 2 bytes (omega arith),
          t,
          u,
          slice-eq-ok {E = Error} 4 (len_of bytes) bytes (ground arith) (ground arith),
        )
        (ground arith)

  round : length bytes < 2 ^ 63 → Round bytes
  round fits = elim (Bool-cases (ltb (len_of bytes) 4)) [
    | inl t ↦ refused _ (parse_attr_short t) (λ p. cc)
    | inr t ↦ elim (Bool-cases (ltb (length bytes) (len_of bytes))) [
      | inl u ↦ refused _ (parse_attr_over t u) (λ p. cc)
      | inr u ↦ elim (Bool-cases (ltb (length bytes) (nl_align (len_of bytes)))) [
        | inl v ↦ refused _ (rw v at (parse_attr_within t u)) (λ p. cc)
        | inr v ↦
            let lower : 4 ≤ len_of bytes = ground arith in
            let upper : len_of bytes ≤ length bytes = ground arith in
            let aligned : nl_align (len_of bytes) ≤ length bytes = ground arith in
            let e = nl_align-eq (len_of bytes) (omega arith) in
            let l = length-drop (nl_align (len_of bytes)) bytes in
            let p : 4 + length (attr_of bytes).payload ≡ len_of bytes =
              omega (arith, length-take (len_of bytes - 4) (drop 4 bytes), length-drop 4 bytes) in
            taken (attr_of bytes) (drop (nl_align (len_of bytes)) bytes)
              (rw v at (parse_attr_within t u)) (rw p (omega arith)) (omega arith)
      ]
    ]
  ]

-- The bytes that the attributes take up, each with its header and its padding.
pub occupied : List RouteAttr → ℕ
occupied [] = 0
occupied (attr ∷ attrs) = nl_align (4 + length attr.payload) + occupied attrs

occupied-concat :
    (attrs : List RouteAttr) (attr : RouteAttr)
    → occupied (attrs ++ (attr ∷ [])) ≡ occupied attrs + nl_align (4 + length attr.payload)
unfolding occupied
occupied-concat [] attr = omega arith
occupied-concat (a ∷ attrs) attr = omega (arith, occupied-concat attrs attr)

-- What the loop comes to: an error of the program, or attributes that fill all but three bytes at most.
pub data Outcome (total : ℕ) (result : Result Error (List RouteAttr)) : Type 0 where
  failed : (e : Error) → result ≡ err e → e ≢ out_of_rounds → Outcome total result
  filled :
      (attrs : List RouteAttr)
      → result ≡ ok attrs
      → occupied attrs ≤ total
      → total < occupied attrs + 4
      → Outcome total result

parse_attrs_loop-Outcome :
    (rounds : ℕ) (bytes : Bytes) (attrs : List RouteAttr)
    → length bytes ≤ rounds
    → length bytes < 2 ^ 63
    → Outcome (occupied attrs + length bytes) (parse_attrs_loop rounds bytes attrs)
unfolding parse_attrs_loop
parse_attrs_loop-Outcome zero bytes attrs h fits =
    filled attrs (ground arith) (omega arith) (omega arith)
parse_attrs_loop-Outcome (suc rounds) bytes attrs h fits = elim (dec_lt (length bytes) 4) [
  | yes end ↦ filled attrs (ground arith) (omega arith) (omega arith)
  | no more ↦ elim (round bytes (omega arith) fits) [
    | refused e p ne ↦ failed e (ground (arith, p)) ne
    | taken attr rest p size less ↦
        let test : ltb (length bytes) 4 ≡ false = ground arith in
        let total : occupied (attrs ++ (attr ∷ [])) + length rest ≡ occupied attrs + length bytes =
          omega (arith, occupied-concat attrs attr) in
        rw (test, p, ← total)
          (parse_attrs_loop-Outcome rounds rest (attrs ++ (attr ∷ [])) (omega arith) (omega arith))
  ]
]

-- On any slice `parseRouteAttrs` ends without a panic: with one of the program's errors, or with
-- attributes that take up, headers and padding included, the whole slice but for three bytes at most.
pub parse_route_attrs-Outcome :
    (bytes : Bytes) → length bytes < 2 ^ 63 → Outcome (length bytes) (parse_route_attrs bytes)
unfolding parse_route_attrs occupied
parse_route_attrs-Outcome bytes fits =
    let start : 0 + length bytes ≡ length bytes = omega arith in
    subst (λ n. Outcome n (parse_attrs_loop (length bytes) bytes [])) start
      (parse_attrs_loop-Outcome (length bytes) bytes [] (omega arith) fits)
