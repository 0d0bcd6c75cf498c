-- ===== src/Memoria/Compactacion/Busqueda.antt =====
-- memoria/src/compactacion.c: what the three scans find.
use tp_2023_1c_kernel_flow.Base.{
  ℕ, zero, suc, ◌+◌, ◌<◌, ◌≤◌, ◌≡◌, ◌≢◌, ◌⊎◌, inl, inr, Bool, true, false, Option, none, some,
  arith, Bool-cases,
}
use tp_2023_1c_kernel_flow.Memoria.Bitarray.{Bitarray, bitarray_get}
use tp_2023_1c_kernel_flow.Memoria.Compactacion.{find_up, find_down}

-- The first index of a range that passes a test, or none.
abbrev pub IsFound : (Bool → Bool) → Bitarray → ℕ → ℕ → Option ℕ → Type 0
IsFound test t i n none = (j : ℕ) → i ≤ j → j < i + n → test (bitarray_get t j) ≡ false
IsFound test t i n (some k) =
    (i ≤ k)
    × (k < i + n)
    × (test (bitarray_get t k) ≡ true)
    × ((j : ℕ) → i ≤ j → j < k → test (bitarray_get t j) ≡ false)

find_up_step :
    (test : Bool → Bool) (t : Bitarray) (n i : ℕ) (r : Option ℕ)
    → test (bitarray_get t i) ≡ false
    → IsFound test t (i + 1) n r
    → IsFound test t i (suc n) r
find_up_step test t n i none failed found = λ j low high. elim (split i j) [
  | inl e ↦ rw (← e) failed
  | inr lt ↦ found j (omega (arith, lt, low)) (omega (arith, high))
]
  where
    split : (i j : ℕ) → (i ≡ j) ⊎ (i ≢ j)
    split i j = omega arith
find_up_step test t n i (some k) failed found = (
  omega (arith, found.0),
  omega (arith, found.1),
  found.2,
  λ j low high. elim (split i j) [
    | inl e ↦ rw (← e) failed
    | inr lt ↦ found.3 j (omega (arith, lt, low)) high
  ],
)
  where
    split : (i j : ℕ) → (i ≡ j) ⊎ (i ≢ j)
    split i j = omega arith

pub find_up_lem :
    (test : Bool → Bool) (t : Bitarray) (n i : ℕ) → IsFound test t i n (find_up test t n i)
unfolding find_up
find_up_lem test t zero i = λ j low high. absurd (omega arith)
find_up_lem test t (suc n) i = elim (Bool-cases (test (bitarray_get t i))) [
  | inl passed ↦ rw passed (omega arith, omega arith, passed, λ j low high. absurd (omega arith))
  | inr failed ↦ rw failed (find_up_step test t n i _ failed (find_up_lem test t n (i + 1)))
]

-- The last index but 0 whose bit is set, or none.
abbrev pub IsLast : Bitarray → ℕ → Option ℕ → Type 0
IsLast t n none = (j : ℕ) → 0 < j → j ≤ n → bitarray_get t j ≡ false
IsLast t n (some k) =
    (0 < k)
    × (k ≤ n)
    × (bitarray_get t k ≡ true)
    × ((j : ℕ) → k < j → j ≤ n → bitarray_get t j ≡ false)

find_down_step :
    (t : Bitarray) (n : ℕ) (r : Option ℕ)
    → bitarray_get t (suc n) ≡ false
    → IsLast t n r
    → IsLast t (suc n) r
find_down_step t n none failed found = λ j low high. elim (split j n) [
  | inl e ↦ rw e failed
  | inr ne ↦ found j low (omega (arith, ne, high))
]
  where
    split : (j n : ℕ) → (j ≡ suc n) ⊎ (j ≢ suc n)
    split j n = omega arith
find_down_step t n (some k) failed found = (
  found.0,
  omega (arith, found.1),
  found.2,
  λ j low high. elim (split j n) [
    | inl e ↦ rw e failed
    | inr ne ↦ found.3 j low (omega (arith, ne, high))
  ],
)
  where
    split : (j n : ℕ) → (j ≡ suc n) ⊎ (j ≢ suc n)
    split j n = omega arith

pub find_down_lem : (t : Bitarray) (n : ℕ) → IsLast t n (find_down t n)
unfolding find_down
find_down_lem t zero = λ j low high. absurd (omega arith)
find_down_lem t (suc n) = elim (Bool-cases (bitarray_get t (suc n))) [
  | inl passed ↦ rw passed (omega arith, omega arith, passed, λ j low high. absurd (omega arith))
  | inr failed ↦ rw failed (find_down_step t n _ failed (find_down_lem t n))
]
