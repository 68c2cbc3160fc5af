-- ===== src/Ebpf/Runs.antt =====
-- The listing and a probe on concrete systems.
use mathlib.Core.List.{Perm, Pairwise, Pairwise-singleton, forall_mem-cons, not-mem-nil}
use mathlib.Core.List.Perm
use go_systems_lab.Prelude.{List, [], ◌∷◌, map, Bool, if◌then◌else◌, ◌≡◌, refl, none}
use go_systems_lab.Bytes.{codes}
use go_systems_lab.Ebpf.Interfaces.{Interface, InterfaceStatus, status_from_interface}
use go_systems_lab.Ebpf.Probes.{System, Sort, less, less_name, status_line, main_process}
use go_systems_lab.Ebpf.Listing.{IsSorting, IsDistinct, statuses_of, listing, main_process-listing}

insert_by :
    (InterfaceStatus → InterfaceStatus → Bool)
    → InterfaceStatus
    → List InterfaceStatus
    → List InterfaceStatus
insert_by below a [] = a ∷ []
insert_by below a (b ∷ l) =
    let rest = insert_by below a l in if below a b then a ∷ b ∷ l else b ∷ rest

sort_by : Sort
unfolding insert_by
sort_by below [] = []
sort_by below (a ∷ l) = insert_by below a (sort_by below l)

abbrev lo : Interface
lo = record { name = codes "lo"; index = 1; hardware = []; flags = codes "up" }

abbrev eth0 : Interface
eth0 = record { name = codes "eth0"; index = 2; hardware = codes "02:00"; flags = codes "up" }

-- A system without any files.
abbrev bare : System
bare = record {
  stat = λ _. none;
  read_file = λ _. none;
  look_path = λ _. none;
  interfaces = none;
  by_name = λ _. none;
}

two_ordered :
    {R : InterfaceStatus → InterfaceStatus → Type 0}
    → ((a b : InterfaceStatus) → IsProp (R a b))
    → (a b : InterfaceStatus) → R a b
    → Pairwise R (a ∷ b ∷ [])
two_ordered prop a b r =
    Pairwise.cons ((forall_mem-cons (prop a)).1 (r, λ x m. absurd (not-mem-nil m)))
      (Pairwise-singleton _ b)

two-IsDistinct : IsDistinct (statuses_of bare (lo ∷ eth0 ∷ []))
unfolding status_from_interface
two-IsDistinct = two_ordered (λ a b. hlevel) _ _ (λ e. cc)

ascending-IsSorting : IsSorting sort_by (statuses_of bare (eth0 ∷ lo ∷ []))
unfolding sort_by insert_by less less_name status_from_interface
ascending-IsSorting = (Perm.rfl, two_ordered (λ a b. hlevel) _ _ refl)

descending-IsSorting : IsSorting sort_by (statuses_of bare (lo ∷ eth0 ∷ []))
unfolding sort_by insert_by less less_name status_from_interface
descending-IsSorting = (Perm.swap _ _ [], two_ordered (λ a b. hlevel) _ _ refl)

main_process-listing_example :
    (main_process sort_by (listing bare (lo ∷ eth0 ∷ [])) (codes "interfaces" ∷ [])
      ≡ main_process sort_by (listing bare (eth0 ∷ lo ∷ [])) (codes "interfaces" ∷ []))
    × Perm
        (main_process sort_by (listing bare (lo ∷ eth0 ∷ [])) (codes "interfaces" ∷ [])).0
        (map status_line (statuses_of bare (lo ∷ eth0 ∷ [])))
    × ((main_process sort_by (listing bare (lo ∷ eth0 ∷ [])) (codes "interfaces" ∷ [])).1 ≡ 0)
main_process-listing_example =
    main_process-listing sort_by bare (lo ∷ eth0 ∷ []) (eth0 ∷ lo ∷ []) [] two-IsDistinct
      (Perm.swap eth0 lo []) descending-IsSorting ascending-IsSorting
