-- ===== src/Memoria/Algoritmos/Starts.antt =====
-- memoria/src/algoritmos.c: where the whole holes of a table begin, and that the scans stop there.
use tp_2023_1c_kernel_flow.Base.{ℕ, ◌+◌, ◌-◌, ◌<◌, ◌≡◌, ◌⊎◌, inl, inr, true, false, arith, subst}
use tp_2023_1c_kernel_flow.Memoria.Bitarray.{Bitarray, bitarray_get}
use tp_2023_1c_kernel_flow.Memoria.Algoritmos.{get_free_space}
use tp_2023_1c_kernel_flow.Memoria.Algoritmos.Runs.{free_space_step, free_space_inside, run_free}

-- Where a whole hole begins: a free bit at the start of the table or behind a used one.
abbrev pub IsStart : Bitarray → ℕ → Type 0
IsStart t i =
    (i < t.size) × (bitarray_get t i ≡ false) × ((j : ℕ) → i ≡ j + 1 → bitarray_get t j ≡ true)

module _ (t : Bitarray) where
  -- A run of free bits holds no start but its first.
  pub no-IsStart_inside : (i k : ℕ) → i < k → k < i + get_free_space t i → ¬ IsStart t k
  no-IsStart_inside i k low high start =
      let d = k - i - 1 in
      let e : k ≡ i + d + 1 = omega arith in
      let free = run_free t d i (omega arith) in let used = start.2 (i + d) e in ground arith

  -- A start in front of the end of the run at `i` is in front of `i`, or is `i`.
  pub locate :
      (i k : ℕ)
      → IsStart t i
      → k < i + (get_free_space t i - 1) + 1
      → IsStart t k
      → (k < i) ⊎ (i ≡ k)
  locate i k start low other = elim (order i k) [
    | inl before ↦ inl before
    | inr (inl same) ↦ inr same
    | inr (inr behind) ↦
        let free = start.1 in
        let run : 0 < get_free_space t i = ground (arith, free_space_step t i start.0) in
        absurd (no-IsStart_inside i k behind (omega arith) other)
  ]
    where
      order : (a b : ℕ) → (b < a) ⊎ ((a ≡ b) ⊎ (a < b))
      order a b = omega arith

  -- A free bit that the scan reaches begins a whole hole.
  abbrev pub Boundary : ℕ → Type 0
  Boundary i = i < t.size → bitarray_get t i ≡ false → IsStart t i

  pub Boundary-used : (i : ℕ) → bitarray_get t i ≡ true → Boundary (i + 1)
  Boundary-used i used lt free = (
    lt,
    free,
    λ j e. let same : i ≡ j = omega arith in subst (λ k. bitarray_get t k ≡ true) same used,
  )

  pub Boundary-past : (i : ℕ) → IsStart t i → Boundary (i + (get_free_space t i - 1) + 1)
  Boundary-past i start lt free =
      let run : 0 < get_free_space t i =
        let first = start.1 in ground (arith, free_space_step t i start.0) in
      let e : i + (get_free_space t i - 1) + 1 ≡ i + get_free_space t i = omega arith in
      let empty : get_free_space t (i + get_free_space t i) ≡ 0 =
        omega (arith, free_space_inside t (get_free_space t i) i (omega arith)) in
      let free' = subst (λ k. bitarray_get t k ≡ false) e free in
      absurd (let step = free_space_step t (i + get_free_space t i) (omega arith) in ground arith)
