-- ===== src/Prelude/Prog.antt =====
-- Go methods on one object as functions on its state.
use go_systems_lab.Prelude.Outcome.{Result, ok, err, panic}

-- Code that changes one object of type `S` on the way: what it has done before an error or a
-- panic stays done.
abbrev pub Prog : Type 0 → Type 0 → Type 0 → Type 0
Prog S E A = S → S × Result E A

abbrev pub and_then : {S E A B : Type 0} → S × Result E A → (A → Prog S E B) → S × Result E B
and_then (s, ok a) f = f a s
and_then (s, err e) f = (s, err e)
and_then (s, panic) f = (s, panic)

infixl 5 ◌>>=◌ ◌>>◌
abbrev pub ◌>>=◌ : {S E A B : Type 0} → Prog S E A → (A → Prog S E B) → Prog S E B
◌>>=◌ m f s = and_then (m s) f

abbrev pub ◌>>◌ : {S E A B : Type 0} → Prog S E A → Prog S E B → Prog S E B
◌>>◌ m k s = and_then (m s) (λ _. k)

abbrev pub done : {S E A : Type 0} → A → Prog S E A
done a s = (s, ok a)

abbrev pub fail : {S E A : Type 0} → E → Prog S E A
fail e s = (s, err e)

-- A step that only looks at the object.
abbrev pub query : {S E A : Type 0} → (S → Result E A) → Prog S E A
query f s = (s, f s)

-- A step that replaces the object, unless it panics or fails.
abbrev pub replaced : {S E : Type 0} → S → Result E S → S × Result E (Unit {0})
replaced s (ok s') = (s', ok tt)
replaced s (err e) = (s, err e)
replaced s panic = (s, panic)

abbrev pub update : {S E : Type 0} → (S → Result E S) → Prog S E (Unit {0})
update f s = replaced s (f s)
