-- ===== src/Ebpf/Listing.antt =====
-- The order in which the interfaces are listed.
use mathlib.Core.Path.{ap₂}
use mathlib.Core.Logic.Or
use mathlib.Core.List.{Perm, Mem, Pairwise, mem-cons_self, eq-or-mem_of_mem-cons}
use mathlib.Core.List.Perm
use mathlib.Core.List.Pairwise
use go_systems_lab.Prelude.{
  List, [], ◌∷◌, map, Bool, false, ◌≡◌, ◌≢◌, refl, sym, ap, ◌∙◌, some, arith,
}
use go_systems_lab.Bytes.{Bytes, codes, equal}
use go_systems_lab.Ebpf.Interfaces.{Interface, InterfaceStatus, status_from_interface}
use go_systems_lab.Ebpf.Probes.{
  System, Sort, less, less_name, run_interfaces, collect_interface_statuses, status_line,
  main_process,
}

-- No element stands behind one that its name is less than.
abbrev pub IsOrdered : List InterfaceStatus → Type 0
IsOrdered = Pairwise (λ a b. less_name b a ≡ false)

-- What `sort.Slice` promises of a list: the same elements, ascending. Equal names may change places.
abbrev pub IsSorting : Sort → List InterfaceStatus → Type 0
IsSorting sort l = Perm (sort less_name l) l × IsOrdered (sort less_name l)

abbrev pub IsDistinct : List InterfaceStatus → Type 0
IsDistinct = Pairwise (λ a b. a.name ≢ b.name)

less_antisymm : (s t : Bytes) → less s t ≡ false → less t s ≡ false → s ≡ t
unfolding less
less_antisymm [] [] h k = refl
less_antisymm [] (y ∷ t) h k = absurd cc
less_antisymm (x ∷ s) [] h k = absurd cc
less_antisymm (x ∷ s) (y ∷ t) h k = ground (arith, less_antisymm s t)

less_irrefl : (s : Bytes) → less s s ≡ false
unfolding less
less_irrefl [] = refl
less_irrefl (x ∷ s) = ground (arith, less_irrefl s)

InterfaceStatus-set : IsSet InterfaceStatus
InterfaceStatus-set = hlevel

Bool-set : IsSet Bool
Bool-set = hlevel

-- The first of an ordered list is least.
first_least :
    {a b : InterfaceStatus} {l : List InterfaceStatus}
    → IsOrdered (a ∷ l)
    → Mem b (a ∷ l)
    → less_name b a ≡ false
unfolding less_name
first_least {a} {b} (Pairwise.cons h _) m =
    Or.elim (Bool-set (less b.name a.name) false) (eq-or-mem_of_mem-cons m)
      (λ e. ap (λ s. less s.name a.name) e ∙ less_irrefl a.name) (λ k. h b k)

-- The first of a list is the only element of its name.
only_named :
    {a b : InterfaceStatus} {l : List InterfaceStatus}
    → IsDistinct (a ∷ l)
    → Mem b (a ∷ l)
    → a.name ≡ b.name
    → b ≡ a
only_named {a} {b} (Pairwise.cons h _) m e =
    Or.elim (InterfaceStatus-set b a) (eq-or-mem_of_mem-cons m) (λ p. p) (λ k. absurd (h b k e))

-- Statuses of different names have one order.
ordered_unique :
    {s r : List InterfaceStatus} → IsOrdered s → IsOrdered r → IsDistinct s → Perm s r → s ≡ r
ordered_unique {s = []} os or d p = Perm.nil-eq p
ordered_unique {s = a ∷ s} {r = []} os or d p = Perm.eq-nil p
ordered_unique {s = a ∷ s} {r = b ∷ r} os or d p =
    let b-in : Mem b (a ∷ s) = (Perm.mem_iff p).1 mem-cons_self in
    let a-in : Mem a (b ∷ r) = (Perm.mem_iff p).0 mem-cons_self in
    let names : a.name ≡ b.name =
      unfold less_name in less_antisymm a.name b.name (first_least or a-in) (first_least os b-in) in
    let heads : b ≡ a = only_named d b-in names in
    let tails : Perm s r = Perm.cons_inv (Perm.trans p (Perm.cons' heads Perm.rfl)) in
    ap₂ ◌∷◌ (sym heads) (
      ordered_unique {s = s} {r = r} (Pairwise.of_cons os) (Pairwise.of_cons or)
        (Pairwise.of_cons d) tails)

abbrev pub statuses_of : System → List Interface → List InterfaceStatus
statuses_of system listed = map (status_from_interface system.read_file) listed

-- The system, with its interfaces listed in this order.
abbrev pub listing : System → List Interface → System
listing system listed = record system { interfaces = some listed }

sorted_same :
    (sort : Sort) (l m : List InterfaceStatus)
    → IsDistinct l
    → Perm l m
    → IsSorting sort l
    → IsSorting sort m
    → sort less_name l ≡ sort less_name m
sorted_same sort l m d p (pl, ol) (pm, om) =
    ordered_unique ol om (Perm.pairwise (λ a b. hlevel) (λ a b n e. n (sym e)) (Perm.symm pl) d)
      (Perm.trans pl (Perm.trans p (Perm.symm pm)))

-- The listing does not depend on the order in which the system names its interfaces, whatever `sort.Slice` does with
-- equal elements: for two listings of the same interfaces, whose names differ from each other, `interfaces`
-- prints the same lines; they are the lines of all the interfaces, and the exit status is 0.
pub main_process-listing :
    (sort : Sort) (system : System) (listed other : List Interface) (args : List Bytes)
    → IsDistinct (statuses_of system listed)
    → Perm listed other
    → IsSorting sort (statuses_of system listed)
    → IsSorting sort (statuses_of system other)
    → (main_process sort (listing system listed) (codes "interfaces" ∷ args)
        ≡ main_process sort (listing system other) (codes "interfaces" ∷ args))
      × Perm
          (main_process sort (listing system listed) (codes "interfaces" ∷ args)).0
          (map status_line (statuses_of system listed))
      × ((main_process sort (listing system listed) (codes "interfaces" ∷ args)).1 ≡ 0)
unfolding main_process run_interfaces collect_interface_statuses equal
main_process-listing sort system listed other args d p sl so = (
  ap (λ l. (map status_line l, 0))
      (sorted_same sort (statuses_of system listed) (statuses_of system other) d (Perm.map _ p) sl
        so),
  Perm.map status_line sl.0,
  refl,
)
