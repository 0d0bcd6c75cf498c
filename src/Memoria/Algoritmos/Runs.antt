-- ===== src/Memoria/Algoritmos/Runs.antt =====
-- memoria/src/utils.c: what `get_free_space` counts.
use tp_2023_1c_kernel_flow.Base.{
  ℕ, zero, suc, ◌+◌, ◌-◌, ◌<◌, ◌≤◌, ◌≡◌, false, arith, if◌then◌else◌, ◌↔◌,
}
use tp_2023_1c_kernel_flow.Memoria.Bitarray.{Bitarray, bitarray_get}
use tp_2023_1c_kernel_flow.Memoria.Algoritmos.{free_from, get_free_space}

module _ (t : Bitarray) where
  pub free_space_step :
      (i : ℕ)
      → i < t.size
      → get_free_space t i ≡ (if bitarray_get t i then 0 else suc (get_free_space t (i + 1)))
  unfolding get_free_space free_from
  free_space_step i h =
      let rounds : t.size - i ≡ suc (t.size - (i + 1)) = omega arith in rw (rounds, free_from)

  pub free_space_end : (i : ℕ) → t.size ≤ i → get_free_space t i ≡ 0
  unfolding get_free_space free_from
  free_space_end i h = let rounds : t.size - i ≡ 0 = omega arith in rw (rounds, free_from)

  free_from_le : (rounds i : ℕ) → free_from t rounds i ≤ rounds
  unfolding free_from
  free_from_le zero i = omega arith
  free_from_le (suc rounds) i = ground (arith, free_from_le rounds (i + 1))

  pub free_space_le : (i : ℕ) → get_free_space t i ≤ t.size - i
  unfolding get_free_space
  free_space_le i = free_from_le (t.size - i) i

  -- Inside of a run, what is left of it.
  pub free_space_inside :
      (d i : ℕ) → d ≤ get_free_space t i → get_free_space t (i + d) + d ≡ get_free_space t i
  free_space_inside zero i h = let e : i + 0 ≡ i = omega arith in rw e (omega arith)
  free_space_inside (suc d) i h =
      let e : i + suc d ≡ i + 1 + d = omega arith in
      let inside = free_space_le i in
      let step = free_space_step i (omega arith) in
      rw e (ground (arith, step, free_space_inside d (i + 1)))

  -- The bits of a run are free.
  pub run_free : (d i : ℕ) → d < get_free_space t i → bitarray_get t (i + d) ≡ false
  run_free d i h =
      let rest = free_space_inside d i (omega arith) in
      let inside = free_space_le (i + d) in ground (arith, free_space_step (i + d))

-- A hole: so many free bits in a row, in bounds.
abbrev pub IsHole : Bitarray → ℕ → ℕ → Type 0
IsHole t base n = (base + n ≤ t.size) × ((d : ℕ) → d < n → bitarray_get t (base + d) ≡ false)

module _ (t : Bitarray) where
  hole_le : (n base : ℕ) → IsHole t base n → n ≤ get_free_space t base
  hole_le zero base h = omega arith
  hole_le (suc n) base h =
      let here : base + 0 ≡ base = omega arith in
      let first : bitarray_get t base ≡ false = rw here at (h.1 0 (omega arith)) in
      ground (arith, free_space_step t base (omega arith), hole_le n (base + 1) later)
    where
      later : IsHole t (base + 1) n
      later = (
        omega arith,
        λ d below.
            let e : base + suc d ≡ base + 1 + d = omega arith in
            rw e at (h.1 (suc d) (omega arith)),
      )

  -- At an index in bounds, there is a hole of n free bits, in bounds, exactly where n is at most
  -- the count that `get_free_space` answers.
  pub free_space_iff : (base n : ℕ) → base ≤ t.size → IsHole t base n ↔ (n ≤ get_free_space t base)
  free_space_iff base n inside = (
    hole_le n base,
    λ h. (omega (arith, free_space_le t base), λ d below. run_free t d base (omega arith)),
  )
