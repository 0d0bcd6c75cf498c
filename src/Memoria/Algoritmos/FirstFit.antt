-- ===== src/Memoria/Algoritmos/FirstFit.antt =====
-- memoria/src/algoritmos.c: `FIRST_FIT` answers the lowest address with room, or -1 where there is
-- none.
use tp_2023_1c_kernel_flow.Base.{
  ℕ, zero, suc, ◌+◌, ◌-◌, ◌<◌, ◌≤◌, ◌≡◌, ◌⊎◌, inl, inr, refl, true, false, arith, Bool-cases, subst,
  leb, leb→le, not-leb→lt,
}
use tp_2023_1c_kernel_flow.Memoria.Bitarray.{Bitarray, bitarray_get}
use tp_2023_1c_kernel_flow.Memoria.Algoritmos.{minus_one, get_free_space, first_fit_from, first_fit}
use tp_2023_1c_kernel_flow.Memoria.Algoritmos.Runs.{
  free_space_step, free_space_inside, IsHole, free_space_iff,
}

-- No address from `i` on and below `j` has room for `need` bytes.
abbrev NoRoom : Bitarray → ℕ → ℕ → ℕ → Type 0
NoRoom t need i j = (k : ℕ) → i ≤ k → k < j → get_free_space t k < need

-- The first address with room from `i` on, or -1.
abbrev IsFirst : Bitarray → ℕ → ℕ → ℕ → Type 0
IsFirst t need i r =
    ((i ≤ r) × (r < t.size) × (need ≤ get_free_space t r) × NoRoom t need i r)
    ⊎ ((r ≡ minus_one) × NoRoom t need i t.size)

module _ (t : Bitarray) (need : ℕ) (positive : 0 < need) where
  -- What was skipped has no room, so the first address from `j` on is the first from `i` on.
  widen : (i j r : ℕ) → i ≤ j → NoRoom t need i j → IsFirst t need j r → IsFirst t need i r
  widen i j r le skipped (inl found) = inl (
    omega arith,
    found.1,
    found.2,
    λ k low high. elim (split k j) [
      | inl below ↦ skipped k low below
      | inr above ↦ found.3 k above high
    ],
  )
    where
      split : (k j : ℕ) → (k < j) ⊎ (j ≤ k)
      split k j = omega arith
  widen i j r le skipped (inr (none_left, rest)) = inr (
    none_left,
    λ k low high. elim (split k j) [
      | inl below ↦ skipped k low below
      | inr above ↦ rest k above high
    ],
  )
    where
      split : (k j : ℕ) → (k < j) ⊎ (j ≤ k)
      split k j = omega arith

  used-NoRoom : (i : ℕ) → i < t.size → bitarray_get t i ≡ true → NoRoom t need i (i + 1)
  used-NoRoom i inside used k low high =
      let e : i ≡ k = omega arith in
      subst (λ j. get_free_space t j < need) e (ground (arith, free_space_step t i inside))

  short-NoRoom : (i : ℕ) → get_free_space t i < need → NoRoom t need i (i + get_free_space t i)
  short-NoRoom i short k low high =
      let e : i + (k - i) ≡ k = omega arith in
      subst (λ j. get_free_space t j < need) e
        (omega (arith, free_space_inside t (k - i) i (omega arith)))

  -- One round, given the rounds that follow it.
  IsFirst-fit_round :
      (fuel i : ℕ)
      → i < t.size
      → ((j : ℕ) → i < j → IsFirst t need j (first_fit_from fuel t need j))
      → IsFirst t need i (first_fit_from (suc fuel) t need i)
  unfolding first_fit_from
  IsFirst-fit_round fuel i lt later = elim (Bool-cases (bitarray_get t i)) [
    | inl used ↦
        rw (inside, used)
          (widen i (i + 1) _ (omega arith) (used-NoRoom i lt used) (later (i + 1) (omega arith)))
    | inr free ↦ elim (Bool-cases (leb need (get_free_space t i))) [
      | inl room ↦
          rw (inside, free, room)
            (inl (omega arith, lt, leb→le _ _ room, λ k low high. absurd (omega arith)))
      | inr short ↦ rw (inside, free, short) (past free (not-leb→lt _ _ short))
    ]
  ]
    where
      inside : leb t.size i ≡ false
      inside = ground arith

      past :
          bitarray_get t i ≡ false
          → get_free_space t i < need
          → IsFirst t need i (first_fit_from fuel t need (i + (get_free_space t i - 1) + 1))
      past free short =
          let run : 0 < get_free_space t i = ground (arith, free_space_step t i lt) in
          let e : i + get_free_space t i ≡ i + (get_free_space t i - 1) + 1 = omega arith in
          widen i (i + (get_free_space t i - 1) + 1) _ (omega arith)
            (subst (NoRoom t need i) e (short-NoRoom i short))
            (later (i + (get_free_space t i - 1) + 1) (omega arith))

  first_fit_from_lem :
      (fuel i : ℕ) → t.size < fuel + i → IsFirst t need i (first_fit_from fuel t need i)
  unfolding first_fit_from
  first_fit_from_lem zero i h = inr (refl, λ k low high. absurd (omega arith))
  first_fit_from_lem (suc fuel) i h = elim (Bool-cases (leb t.size i)) [
    | inl out ↦ rw out (inr (refl, λ k low high. absurd (omega (arith, leb→le _ _ out))))
    | inr inside ↦
        IsFirst-fit_round fuel i (not-leb→lt _ _ inside)
          (λ j later. first_fit_from_lem fuel j (omega arith))
  ]

-- A request of at least one byte is served at the lowest address that begins a hole of that size,
-- in bounds; or it is refused with -1 and no address begins one.
pub first_fit_lowest :
    (t : Bitarray) (need : ℕ)
    → 0 < need
    → ((r : ℕ) × (first_fit t need ≡ r) × IsHole t r need × ((k : ℕ) → k < r → ¬ IsHole t k need))
      ⊎ ((first_fit t need ≡ minus_one) × ((k : ℕ) → ¬ IsHole t k need))
unfolding first_fit
first_fit_lowest t need positive =
    elim (first_fit_from_lem t need positive (suc t.size) 0 (omega arith)) [
      | inl found ↦ inl (
        first_fit t need,
        refl,
        (free_space_iff t (first_fit t need) need (omega arith)).1 found.2,
        λ k below hole. absurd (omega (arith, found.3 k (omega arith) below, room k hole)),
      )
      | inr (refused, none_left) ↦ inr (
        refused,
        λ k hole.
            absurd (omega (arith, none_left k (omega arith) (omega (arith, hole.0)), room k hole)),
      )
    ]
  where
    room : (k : ℕ) → IsHole t k need → need ≤ get_free_space t k
    room k hole = (free_space_iff t k need (omega (arith, hole.0))).0 hole
