-- ===== src/Text/FilePath.antt =====
-- `path/filepath`: `Clean` and `Join` on Unix.
use go_systems_lab.Prelude.{
  ℕ, ◌≡◌, ◌≢◌, refl, sym, ap, ◌∙◌, Bool, true, false, ◌==◌, List, [], ◌∷◌, ◌++◌, if◌then◌else◌,
  arith,
}
use mathlib.Core.Path.{subst}
use mathlib.Core.List.{reverse, append_assoc, append-nil, reverse-cons, reverse-reverse}
use go_systems_lab.Bytes.{Bytes, codes, equal, equal_iff, All, All-append}
use go_systems_lab.Text.Split.{split, split-append}

abbrev pub slash : ℕ
slash = b'/'

abbrev pub dot : Bytes
dot = codes "."

abbrev pub dot_dot : Bytes
dot_dot = codes ".."

-- `strings.Join(names, "/")`.
unfoldable pub join_slash : List Bytes → Bytes
join_slash [] = []
join_slash (name ∷ []) = name
join_slash (name ∷ next ∷ names) = name ++ (slash ∷ join_slash (next ∷ names))

-- What ".." does to the components kept so far, the last one first.
back : Bool → List Bytes → List Bytes
back rooted [] = if rooted then [] else dot_dot ∷ []
back rooted (top ∷ kept) = if equal top dot_dot then dot_dot ∷ top ∷ kept else kept

unfoldable pub keep : Bool → List Bytes → Bytes → List Bytes
unfolding back
keep rooted kept [] = kept
keep rooted kept (b ∷ name) =
    if equal (b ∷ name) dot
    then kept
    else if equal (b ∷ name) dot_dot
    then back rooted kept
    else (b ∷ name) ∷ kept

unfoldable pub clean_loop : Bool → List Bytes → List Bytes → List Bytes
clean_loop rooted kept [] = kept
clean_loop rooted kept (name ∷ names) = clean_loop rooted (keep rooted kept name) names

unfoldable pub rooted_path : Bool → List Bytes → Bytes
rooted_path true names = slash ∷ join_slash names
rooted_path false [] = dot
rooted_path false (name ∷ names) = join_slash (name ∷ names)

-- `filepath.Clean(path)`.
unfoldable pub clean : Bytes → Bytes
unfolding keep clean_loop rooted_path join_slash
clean [] = dot
clean (b ∷ path) =
    rooted_path (b == slash) (reverse (clean_loop (b == slash) [] (split slash (b ∷ path))))

-- `filepath.Join(names...)`.
unfoldable pub join : List Bytes → Bytes
unfolding clean
join [] = []
join ([] ∷ names) = join names
join ((b ∷ name) ∷ names) = clean (join_slash ((b ∷ name) ∷ names))

-- A component that `Clean` keeps.
pub record IsName (name : Bytes) : Type 0 where
  pub no_slash : All (λ b. b ≢ slash) name
  pub no_end : name ≢ []
  pub no_dot : name ≢ dot
  pub no_dot_dot : name ≢ dot_dot

split_whole : (name : Bytes) → All (λ b. b ≢ slash) name → split slash name ≡ name ∷ []
unfolding split
split_whole [] h = refl
split_whole (b ∷ name) (h, hs) = ground (arith, split_whole name hs)

split-join_slash :
    (name : Bytes) (names : List Bytes)
    → IsName name
    → All IsName names
    → split slash (join_slash (name ∷ names)) ≡ name ∷ names
unfolding join_slash
split-join_slash name [] h hs = split_whole name h.no_slash
split-join_slash name (next ∷ names) h (k, ks) =
    split-append slash name (join_slash (next ∷ names)) h.no_slash
    ∙ ap (◌∷◌ name) (split-join_slash next names k ks)

keep_name :
    (rooted : Bool) (kept : List Bytes) (name : Bytes)
    → IsName name
    → keep rooted kept name ≡ name ∷ kept
unfolding keep
keep_name rooted kept [] h = absurd (h.no_end refl)
keep_name rooted kept (b ∷ name) h =
    ground (arith, equal_iff (b ∷ name) dot, equal_iff (b ∷ name) dot_dot, h.no_dot, h.no_dot_dot)

clean_loop_names :
    (rooted : Bool) (kept names : List Bytes)
    → All IsName names
    → clean_loop rooted kept names ≡ reverse names ++ kept
unfolding clean_loop
clean_loop_names rooted kept [] h = refl
clean_loop_names rooted kept (name ∷ names) (h, hs) = rw (keep_name rooted kept name h) (
    clean_loop_names rooted (name ∷ kept) names hs
    ∙ sym (ap (λ l. l ++ kept) (reverse-cons name names) ∙ append_assoc (reverse names) _ kept))

-- The components that are kept of a path of proper components are all of them.
kept_names :
    (rooted : Bool) (name : Bytes) (names : List Bytes)
    → IsName name
    → All IsName names
    → reverse (clean_loop rooted [] (split slash (join_slash (name ∷ names)))) ≡ name ∷ names
kept_names rooted name names h hs = rw (
  split-join_slash name names h hs,
  clean_loop_names rooted [] (name ∷ names) (h, hs),
  append-nil,
  reverse-reverse,
)

clean-cons :
    (b : ℕ) (rest path : Bytes)
    → path ≡ b ∷ rest
    → clean path
      ≡ rooted_path (b == slash) (reverse (clean_loop (b == slash) [] (split slash path)))
unfolding clean
clean-cons b rest path e = rw e refl

join_slash-cons :
    (b : ℕ) (name : Bytes) (names : List Bytes)
    → (rest : Bytes) × (join_slash ((b ∷ name) ∷ names) ≡ b ∷ rest)
unfolding join_slash
join_slash-cons b name [] = (name, refl)
join_slash-cons b name (next ∷ names) = (name ++ (slash ∷ join_slash (next ∷ names)), refl)

-- A path of proper components, behind a slash or not, is clean.
pub clean-rooted_path :
    (rooted : Bool) (name : Bytes) (names : List Bytes)
    → IsName name
    → All IsName names
    → clean (rooted_path rooted (name ∷ names)) ≡ rooted_path rooted (name ∷ names)
unfolding rooted_path
clean-rooted_path true name names h hs =
    clean-cons slash (join_slash (name ∷ names)) _ refl
    ∙ unfold split clean_loop keep in
      ap (λ l. slash ∷ join_slash l) (kept_names true name names h hs)
clean-rooted_path false [] names h hs = absurd (h.no_end refl)
clean-rooted_path false (b ∷ name) names h hs =
    let (rest, e) = join_slash-cons b name names in
    let test : (b == slash) ≡ false = ground (arith, h.no_slash.0) in
    clean-cons b rest _ e ∙ rw (test, kept_names false (b ∷ name) names h hs)

join_slash-append :
    (name : Bytes) (names more : List Bytes)
    → join_slash (join_slash (name ∷ names) ∷ more) ≡ join_slash ((name ∷ names) ++ more)
unfolding join_slash
join_slash-append name [] more = refl
join_slash-append name (next ∷ names) [] = rw append-nil
join_slash-append name (next ∷ names) (m ∷ more) =
    append_assoc name (slash ∷ join_slash (next ∷ names)) (slash ∷ join_slash (m ∷ more))
    ∙ ap (λ l. name ++ (slash ∷ l)) (join_slash-append next names (m ∷ more))

join_slash_rooted :
    (path : Bytes) (more : List Bytes)
    → join_slash ((slash ∷ path) ∷ more) ≡ slash ∷ join_slash (path ∷ more)
unfolding join_slash
join_slash_rooted path [] = refl
join_slash_rooted path (m ∷ more) = refl

join-cons :
    (b : ℕ) (rest path : Bytes) (more : List Bytes)
    → path ≡ b ∷ rest
    → join (path ∷ more) ≡ clean (join_slash (path ∷ more))
unfolding join
join-cons b rest path more e =
    subst (λ (p : Bytes). join (p ∷ more) ≡ clean (join_slash (p ∷ more))) (sym e) (refl)

-- Proper components that are joined to a path of such stand behind it, with nothing lost.
pub join-rooted_path :
    (rooted : Bool) (name : Bytes) (names more : List Bytes)
    → IsName name
    → All IsName names
    → All IsName more
    → join (rooted_path rooted (name ∷ names) ∷ more) ≡ rooted_path rooted (name ∷ (names ++ more))
unfolding rooted_path
join-rooted_path true name names more h hs ks =
    join-cons slash (join_slash (name ∷ names)) _ more refl
    ∙ ap clean (
        join_slash_rooted (join_slash (name ∷ names)) more
        ∙ ap (◌∷◌ slash) (join_slash-append name names more))
    ∙ clean-rooted_path true name (names ++ more) h (All-append IsName names more hs ks)
join-rooted_path false [] names more h hs ks = absurd (h.no_end refl)
join-rooted_path false (b ∷ name) names more h hs ks =
    let (rest, e) = join_slash-cons b name names in
    join-cons b rest _ more e
    ∙ ap clean (join_slash-append (b ∷ name) names more)
    ∙ clean-rooted_path false (b ∷ name) (names ++ more) h (All-append IsName names more hs ks)
