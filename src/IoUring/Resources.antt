-- ===== src/IoUring/Resources.antt =====
-- What a ring holds of the kernel: no way through `mapRing` and `close` leaks or releases twice.
use Prim.Native.Nat.{bit_and}
use go_systems_lab.Prelude.{
  ℕ, ◌≡◌, refl, Bool, true, false, ◌==◌, List, [], ◌∷◌, ◌++◌, Option, none, some, if◌then◌else◌,
  Bool-cases, Option-cases, ◌*◌, inl, inr, Result, ok, err, panic,
}
use go_systems_lab.IoUring.Types.{IoUringParams, io_uring_feat_single_mmap, sqe_size}
use go_systems_lab.IoUring.Mapping.{
  sq_region, cq_region, sqes_region, Event, opened, closed, mapped, unmapped, Mapped, Mmap,
  answered, map_rings, map_all, map_ring, finish_mapping, close_ring, MapError, max_int, sq_size,
  cq_size,
}

-- What the kernel keeps for the process: the descriptor of the ring and the mapped regions.
pub record Held : Type 0 where
  pub descriptor : Bool
  pub sq : Bool
  pub cq : Bool
  pub sqes : Bool

abbrev pub nothing : Held
nothing = record { descriptor = false; sq = false; cq = false; sqes = false }

-- One event, `none` where it may not happen: a descriptor or region acquired twice or
-- released while not held, or a mapping of a closed descriptor.
unfoldable pub happens : Event → Held → Option Held
happens opened h = if h.descriptor then none else some (record h { descriptor = true })
happens closed h = if h.descriptor then some (record h { descriptor = false }) else none
happens (mapped sq_region _) h =
    if h.descriptor then (if h.sq then none else some (record h { sq = true })) else none
happens (mapped cq_region _) h =
    if h.descriptor then (if h.cq then none else some (record h { cq = true })) else none
happens (mapped sqes_region _) h =
    if h.descriptor then (if h.sqes then none else some (record h { sqes = true })) else none
happens (unmapped sq_region) h = if h.sq then some (record h { sq = false }) else none
happens (unmapped cq_region) h = if h.cq then some (record h { cq = false }) else none
happens (unmapped sqes_region) h = if h.sqes then some (record h { sqes = false }) else none

unfoldable pub replay : List Event → Held → Option Held
replay [] h = some h
replay (event ∷ events) h = elim (happens event h) [ none ↦ none | some h' ↦ replay events h' ]

-- Whatever `io_uring_setup` and each `mmap` answer, what `mapRing` does is possible, holds all that its
-- ring names where it succeeds, and nothing where it fails; it does not panic.
abbrev pub Balanced : List Event × Result MapError Mapped → Type 0
Balanced (events, ok ring) = replay (events ++ close_ring ring) nothing ≡ some nothing
Balanced (events, err _) = replay events nothing ≡ some nothing
Balanced (_, panic) = ⊥

pub map_ring-Balanced :
    (setup : ℕ) (mmap : Mmap) (params : IoUringParams) → Balanced (map_ring setup mmap params)
unfolding map_ring map_all map_rings answered finish_mapping close_ring replay happens
map_ring-Balanced setup mmap params = elim (Bool-cases (setup == 0)) [
  | inr failed ↦ rw failed refl
  | inl made ↦ elim (Bool-cases (bit_and params.features io_uring_feat_single_mmap == 0)) [
    | inl apart ↦ elim (Option-cases (mmap sq_region (sq_size params))) [
      | inr (e, sq) ↦ rw (made, apart, sq) refl
      | inl sq ↦ elim (Option-cases (mmap cq_region (cq_size params))) [
        | inr (e, cq) ↦ rw (made, apart, sq, cq) refl
        | inl cq ↦ elim (Option-cases (mmap sqes_region (params.sq_entries * sqe_size))) [
          | inr (e, entries) ↦ rw (made, apart, sq, cq, entries) refl
          | inl entries ↦ rw (made, apart, sq, cq, entries) refl
        ]
      ]
    ]
    | inr single ↦
        elim (Option-cases (mmap sq_region (max_int (sq_size params) (cq_size params)))) [
          | inr (e, sq) ↦ rw (made, single, sq) refl
          | inl sq ↦ elim (Option-cases (mmap sqes_region (params.sq_entries * sqe_size))) [
            | inr (e, entries) ↦ rw (made, single, sq, entries) refl
            | inl entries ↦ rw (made, single, sq, entries) refl
          ]
        ]
  ]
]
