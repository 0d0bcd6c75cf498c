-- ===== src/Memoria/Compactacion/Lugar.antt =====
-- memoria/src/compactacion.c: where a segment is placed again when its bits are cleared.
use tp_2023_1c_kernel_flow.Base.{
  ℕ, ◌+◌, ◌-◌, ◌<◌, ◌≤◌, ◌≡◌, ◌≢◌, ◌⊎◌, inl, inr, refl, true, false, none, some, arith, ◌==◌,
  if◌then◌else◌, Bool-cases,
}
use tp_2023_1c_kernel_flow.Wire.Types.{Segment}
use tp_2023_1c_kernel_flow.Memoria.Bitarray.{Bitarray, bitarray_get}
use tp_2023_1c_kernel_flow.Memoria.Algoritmos.{minus_one}
use tp_2023_1c_kernel_flow.Memoria.Algoritmos.Runs.{IsHole}
use tp_2023_1c_kernel_flow.Memoria.Algoritmos.Starts.{IsStart}
use tp_2023_1c_kernel_flow.Memoria.Algoritmos.FirstFit.{first_fit_lowest}
use tp_2023_1c_kernel_flow.Memoria.Algoritmos.BestFit.{best_fit_smallest, worst_fit_largest}
use tp_2023_1c_kernel_flow.Memoria.Espacio.{
  set_from, bitarray_clean_from_and_how_many, Algoritmo, first, best, worst, unrecognised,
  choose_base, get_base_adress,
}
use tp_2023_1c_kernel_flow.Memoria.Espacio.Ranges.{inside, size-set_from, get-set_from}
use tp_2023_1c_kernel_flow.Memoria.Espacio.Regions.{IsExact, clean-IsExact}
use tp_2023_1c_kernel_flow.Memoria.Estado.{Memoria, store}
use tp_2023_1c_kernel_flow.Memoria.Segmentos.Create.{live_regions}
use tp_2023_1c_kernel_flow.Memoria.Segmentos.Live.{take_out-IsExact}
use tp_2023_1c_kernel_flow.Memoria.Compactacion.Ronda.{IsTabled}
use tp_2023_1c_kernel_flow.Memoria.Compactacion.Hueco.{IsGap, IsNext}

-- The segment behind the hole, with its bits cleared: FIRST answers the hole.
module _ (m : Memoria) (h : IsTabled m) (z l o p : ℕ) (s : Segment)
    (gap : IsGap m.free_space_table z l) (next : IsNext m.free_space_table z o) (low : p < m.fresh)
    (there : m.heap p ≡ some s) (at_o : s.base_address ≡ o) where
  abbrev pub cleared : Bitarray
  cleared = set_from m.free_space_table s.size s.base_address false

  pub cleared-IsExact : IsExact cleared (live_regions (store p none m.heap) m.fresh)
  unfolding bitarray_clean_from_and_how_many
  cleared-IsExact =
      clean-IsExact m.free_space_table _ s.base_address s.size
        (take_out-IsExact m.free_space_table m.fresh p m.heap s low there h.memoria.exact)

  pub in_memory : s.base_address + s.size ≤ m.free_space_table.size
  in_memory =
      (take_out-IsExact m.free_space_table m.fresh p m.heap s low there h.memoria.exact).in_bounds.0

  pub get-cleared :
      (j : ℕ)
      → bitarray_get cleared j
        ≡ (if inside s.base_address s.size j then false else bitarray_get m.free_space_table j)
  get-cleared j =
      get-set_from m.free_space_table s.size s.base_address j false h.memoria.exact.packed in_memory

  pub size-cleared : cleared.size ≡ m.free_space_table.size
  size-cleared = size-set_from m.free_space_table s.size s.base_address false

  pub hole : IsHole cleared z s.size
  hole = (
    rw size-cleared (omega (arith, in_memory, next.ordered, at_o)),
    λ d below. rw (get-cleared (z + d)) (elim (Bool-cases (inside s.base_address s.size (z + d))) [
      | inl within ↦ rw within refl
      | inr without ↦
          rw without
            (next.between (z + d) (omega arith) (ground (arith, without, at_o, next.ordered)))
    ]),
  )

  -- Every bit from the hole to the end of the segment's old place is clear.
  run_clear : (j : ℕ) → z ≤ j → j < s.base_address + s.size → bitarray_get cleared j ≡ false
  run_clear j le lt = rw (get-cleared j) (elim (Bool-cases (inside s.base_address s.size j)) [
    | inl within ↦ rw within refl
    | inr without ↦ rw without (next.between j le (ground (arith, without, at_o)))
  ])

  -- The bits below the hole are set.
  below_set : (j : ℕ) → j < z → bitarray_get cleared j ≡ true
  below_set j below =
      let out : inside s.base_address s.size j ≡ false = ground (arith, at_o, next.ordered) in
      rw (get-cleared j, out) (gap.lower j below)

  -- No hole begins below it.
  lowest : (k : ℕ) → bitarray_get cleared k ≡ false → z ≤ k
  lowest k free = elim (split k z) [
    | inr above ↦ above
    | inl below ↦ absurd (cc (free, below_set k below))
  ]
    where
      split : (k z : ℕ) → (k < z) ⊎ (z ≤ k)
      split k z = omega arith

  first_bit : (k : ℕ) → IsHole cleared k s.size → bitarray_get cleared k ≡ false
  first_bit k found =
      let here : k + 0 ≡ k = omega arith in rw here at (found.1 0 (h.positive p s there))

  start : IsStart cleared z
  start = (
    rw size-cleared (omega (arith, in_memory, next.ordered, at_o)),
    run_clear z (omega arith) (omega (arith, next.ordered, at_o)),
    λ j e. below_set j (omega (arith, e)),
  )

  -- A hole that is whole begins at the first one, or behind the segment's old place.
  start_place : (b : ℕ) → IsStart cleared b → (b ≡ z) ⊎ (s.base_address + s.size ≤ b)
  start_place b whole = elim split [
    | inl same ↦ inl same
    | inr (inl behind) ↦ inr behind
    | inr (inr (lt, inner)) ↦
        let free = run_clear (b - 1) (omega (arith, lt)) (omega (arith, inner)) in
        let used = whole.2 (b - 1) (omega (arith, lt)) in absurd (cc (free, used))
  ]
    where
      least : z ≤ b
      least = lowest b whole.1

      split : (b ≡ z) ⊎ ((s.base_address + s.size ≤ b) ⊎ ((z < b) × (b < s.base_address + s.size)))
      split = omega (arith, least)

  -- An address that is answered for the segment.
  abbrev IsPlace : ℕ → Type 0
  IsPlace b = IsHole cleared b s.size × ((b ≡ z) ⊎ (s.base_address + s.size ≤ b))

  chosen-IsPlace : (a : Algoritmo) → a ≢ unrecognised → IsPlace (choose_base a cleared s.size)
  unfolding choose_base
  chosen-IsPlace first known = elim (first_fit_lowest cleared s.size (h.positive p s there)) [
    | inl (r, e, found, least) ↦ rw e (
      found,
      elim (split r) [
        | inl same ↦ inl same
        | inr above ↦ absurd (least z (omega (arith, above, lowest r (first_bit r found))) hole)
      ],
    )
    | inr (_, refused) ↦ absurd (refused z hole)
  ]
    where
      split : (r : ℕ) → (r ≡ z) ⊎ (r ≢ z)
      split r = omega arith
  chosen-IsPlace best known = elim (best_fit_smallest cleared s.size small) [
    | inl (whole, found, _) ↦ (found, start_place _ whole)
    | inr (_, refused) ↦ absurd (refused z start hole)
  ]
    where
      small : cleared.size < minus_one
      small = rw size-cleared h.memoria.exact.addressable
  chosen-IsPlace worst known = elim (worst_fit_largest cleared s.size small) [
    | inl (whole, found, _) ↦ (found, start_place _ whole)
    | inr (_, refused) ↦ absurd (refused z start hole)
  ]
    where
      small : cleared.size < minus_one
      small = rw size-cleared h.memoria.exact.addressable
  chosen-IsPlace unrecognised known = absurd (known refl)

  pub placed :
      (b : ℕ) × (get_base_adress m.algorithm cleared s.size ≡ (b, set_from cleared s.size b true))
      × IsHole cleared b s.size
      × ((b ≡ z) ⊎ (s.base_address + s.size ≤ b))
  unfolding get_base_adress
  placed =
      let (found, where_to) = chosen-IsPlace m.algorithm h.algorithm_known in
      let b = choose_base m.algorithm cleared s.size in
      let served : (b == minus_one) ≡ false =
        ground (arith, found.0, size-cleared, h.positive p s there, h.memoria.exact.addressable) in
      (b, rw served refl, found, where_to)
