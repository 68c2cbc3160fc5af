-- ===== src/Text/Scan.antt =====
-- `bufio.Scanner` with its default split function and its default buffer: the lines of a text that is
-- read without an error.
use go_systems_lab.Prelude.{
  ℕ, ◌*◌, ◌<◌, ◌≡◌, ◌≢◌, refl, ap, Bool, true, false, Bool-cases, inl, inr, ◌==◌, leb, List, [],
  ◌∷◌, ◌++◌, if◌then◌else◌, length, arith,
}
use go_systems_lab.Bytes.{Bytes, All, All-map}
use go_systems_lab.Text.Split.{split, split-append}

abbrev pub max_scan_token_size : ℕ
max_scan_token_size = 64 * 1024

-- A line without the carriage return at its end.
unfoldable pub drop_cr : Bytes → Bytes
drop_cr [] = []
drop_cr (b ∷ []) = if b == 13 then [] else b ∷ []
drop_cr (b ∷ c ∷ s) = b ∷ drop_cr (c ∷ s)

-- The lines, and whether they end with `bufio.ErrTooLong`. The piece behind the last newline is a line if
-- it holds a byte.
unfoldable pub scan_pieces : List Bytes → List Bytes × Bool
unfolding drop_cr
scan_pieces [] = ([], false)
scan_pieces ([] ∷ []) = ([], false)
scan_pieces (piece ∷ pieces) =
    let (lines, too_long) = scan_pieces pieces in
    if leb max_scan_token_size (length piece) then ([], true) else (drop_cr piece ∷ lines, too_long)

unfoldable pub scan : Bytes → List Bytes × Bool
unfolding scan_pieces
scan text = scan_pieces (split b'\n' text)

split-cons : (sep : ℕ) (s : Bytes) → (p : Bytes) × (ps : List Bytes) × (split sep s ≡ p ∷ ps)
unfolding split
split-cons sep [] = ([], [], refl)
split-cons sep (b ∷ s) =
    let (p, ps, e) = split-cons sep s in
    elim (Bool-cases (b == sep)) [
      | inl end ↦ ([], split sep s, rw end)
      | inr more ↦ (b ∷ p, ps, rw (more, e))
    ]

-- A line with no newline and no carriage return in it.
abbrev pub IsLine : Bytes → Type 0
IsLine line = All (λ b. (b ≢ b'\n') × (b ≢ 13)) line × (length line < 64 * 1024)

drop_cr_line : (line : Bytes) → All (λ b. (b ≢ b'\n') × (b ≢ 13)) line → drop_cr line ≡ line
unfolding drop_cr
drop_cr_line [] h = refl
drop_cr_line (b ∷ []) ((_, h), _) = ground arith
drop_cr_line (b ∷ c ∷ s) (_, hs) = ap (◌∷◌ b) (drop_cr_line (c ∷ s) hs)

scan_pieces_line :
    (line p : Bytes) (ps : List Bytes)
    → IsLine line
    → scan_pieces (line ∷ p ∷ ps) ≡ (line ∷ (scan_pieces (p ∷ ps)).0, (scan_pieces (p ∷ ps)).1)
unfolding scan_pieces
scan_pieces_line [] p ps h = refl
scan_pieces_line (b ∷ line) p ps (plain, short) =
    let fits : leb max_scan_token_size (length (b ∷ line)) ≡ false = ground arith in
    rw (fits, drop_cr_line (b ∷ line) plain)

-- The first line of a text is scanned first, without its newline, and the rest as a text of its own.
pub scan-append :
    (line rest : Bytes)
    → IsLine line
    → scan (line ++ (b'\n' ∷ rest)) ≡ (line ∷ (scan rest).0, (scan rest).1)
unfolding scan
scan-append line rest h =
    let (p, ps, e) = split-cons b'\n' rest in
    rw (split-append b'\n' line rest (All-map _ _ (λ b k. k.0) line h.0), e)
      (scan_pieces_line line p ps h)

pub scan-nil : scan [] ≡ ([], false)
unfolding scan split
scan-nil = refl
