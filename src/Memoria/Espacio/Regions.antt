-- ===== src/Memoria/Espacio/Regions.antt =====
-- memoria/src/segmentos.c: the table of free space is the disjoint union of the regions in use.
use tp_2023_1c_kernel_flow.Base.{
  subst, sym, ℕ, ◌+◌, ◌-◌, ◌<◌, ◌≤◌, ◌≡◌, ◌≢◌, ◌⊎◌, inl, inr, refl, true, false, List, [], ◌∷◌,
  arith, ◌==◌, if◌then◌else◌, Bool-cases,
}
use tp_2023_1c_kernel_flow.Memoria.Bitarray.{Bitarray, bitarray_get, bitarray_create}
use tp_2023_1c_kernel_flow.Memoria.Bitarray.Laws.{IsBitarray, get-create, create-IsBitarray}
use tp_2023_1c_kernel_flow.Memoria.Algoritmos.{minus_one}
use tp_2023_1c_kernel_flow.Memoria.Algoritmos.Runs.{IsHole, free_space_iff}
use tp_2023_1c_kernel_flow.Memoria.Algoritmos.FirstFit.{first_fit_lowest}
use tp_2023_1c_kernel_flow.Memoria.Algoritmos.BestFit.{best_fit_smallest, worst_fit_largest}
use tp_2023_1c_kernel_flow.Memoria.Espacio.{
  set_from, bitarray_clean_from_and_how_many, is_malloc_possible, Algoritmo, first, best, worst,
  unrecognised, choose_base, get_base_adress,
}
use tp_2023_1c_kernel_flow.Memoria.Espacio.Ranges.{
  size-set_from, set_from-IsBitarray, inside, get-set_from, run_le_total,
}

-- A region in use: its address and its size.
abbrev pub Region : Type 0
Region = ℕ × ℕ

-- How many of the regions hold an index.
abbrev pub cover : ℕ → List Region → ℕ
cover j [] = 0
cover j ((base, size) ∷ rs) = (if inside base size j then 1 else 0) + cover j rs

abbrev pub AllInBounds : ℕ → List Region → Type 0
AllInBounds n [] = Unit
AllInBounds n ((base, size) ∷ rs) = (base + size ≤ n) × AllInBounds n rs

-- The regions lie in the memory; no two share an address; a bit is set where one of them holds it,
-- and nowhere else.
pub record IsExact (t : Bitarray) (rs : List Region) : Type 0 where
  pub packed : IsBitarray t
  pub addressable : t.size < minus_one
  pub in_bounds : AllInBounds t.size rs
  pub exact : (j : ℕ) → j < t.size → cover j rs ≡ (if bitarray_get t j then 1 else 0)

-- The address that an algorithm answers begins a hole; -1 says that there is none, if the algorithm
-- is one of the three.
choose_base_lem :
    (a : Algoritmo) (t : Bitarray) (size : ℕ)
    → t.size < minus_one
    → 0 < size
    → (IsHole t (choose_base a t size) size × (choose_base a t size ≢ minus_one))
      ⊎ (choose_base a t size ≡ minus_one)
unfolding choose_base
choose_base_lem first t size small positive = elim (first_fit_lowest t size positive) [
  | inl (r, e, hole, _) ↦ rw e (inl (hole, λ bad. omega (arith, hole.0)))
  | inr (refused, _) ↦ inr refused
]
choose_base_lem best t size small positive = elim (best_fit_smallest t size small) [
  | inl (_, hole, _) ↦ inl (hole, λ bad. omega (arith, hole.0))
  | inr (refused, _) ↦ inr refused
]
choose_base_lem worst t size small positive = elim (worst_fit_largest t size small) [
  | inl (_, hole, _) ↦ inl (hole, λ bad. omega (arith, hole.0))
  | inr (refused, _) ↦ inr refused
]
choose_base_lem unrecognised t size small positive = inr refl

hole_bit :
    (t : Bitarray) (base size j : ℕ)
    → IsHole t base size
    → inside base size j ≡ true
    → bitarray_get t j ≡ false
hole_bit t base size j hole within =
    let low : base ≤ j = ground arith in
    let e : base + (j - base) ≡ j = omega arith in
    let distance : j - base < size = ground arith in rw e at (hole.1 (j - base) distance)

-- Setting the bits of a hole adds its region.
pub mark-IsExact :
    (t : Bitarray) (rs : List Region) (base size : ℕ)
    → IsExact t rs
    → IsHole t base size
    → IsExact (set_from t size base true) ((base, size) ∷ rs)
mark-IsExact t rs base size e hole = record {
  packed = set_from-IsBitarray t size base true e.packed;
  addressable = rw (size-set_from t size base true) e.addressable;
  in_bounds =
      subst (λ n. AllInBounds n ((base, size) ∷ rs)) (sym (size-set_from t size base true))
        (hole.0, e.in_bounds);
  exact = λ j below. bit j (rw (size-set_from t size base true) at below);
}
  where
    bit :
        (j : ℕ)
        → j < t.size
        → cover j ((base, size) ∷ rs)
          ≡ (if bitarray_get (set_from t size base true) j then 1 else 0)
    bit j below = elim (Bool-cases (inside base size j)) [
      | inl within ↦
          rw
            (
              get-set_from t size base j true e.packed hole.0,
              within,
              e.exact j below,
              hole_bit t base size j hole within,
            )
            refl
      | inr without ↦
          rw (get-set_from t size base j true e.packed hole.0, without, e.exact j below)
            (omega arith)
    ]

-- Let the set bits of the table be those of the regions in use, each held by one region only. For
-- a request of at least one byte, either the address answered is not -1 and the same holds
-- afterwards with the new region added, or the answer is -1 and the table is unchanged.
pub get_base_adress-IsExact :
    (a : Algoritmo) (t : Bitarray) (rs : List Region) (size : ℕ)
    → IsExact t rs
    → 0 < size
    → (((get_base_adress a t size).0 ≢ minus_one)
        × IsExact (get_base_adress a t size).1 (((get_base_adress a t size).0, size) ∷ rs))
      ⊎ (get_base_adress a t size ≡ (minus_one, t))
unfolding get_base_adress
get_base_adress-IsExact a t rs size e positive =
    elim (choose_base_lem a t size e.addressable positive) [
      | inl (hole, served) ↦
          let test : (choose_base a t size == minus_one) ≡ false = ground arith in
          rw test (inl (served, mark-IsExact t rs (choose_base a t size) size e hole))
      | inr refused ↦
          let test : (choose_base a t size == minus_one) ≡ true = ground arith in
          rw (test, refused) (inr refl)
    ]

-- Where the set bits are exactly those of the regions, each held by one region only, cleaning the
-- bits of one region leaves exactly those of the others.
pub clean-IsExact :
    (t : Bitarray) (rs : List Region) (base size : ℕ)
    → IsExact t ((base, size) ∷ rs)
    → IsExact (bitarray_clean_from_and_how_many t base size) rs
unfolding bitarray_clean_from_and_how_many
clean-IsExact t rs base size e = record {
  packed = set_from-IsBitarray t size base false e.packed;
  addressable = rw (size-set_from t size base false) e.addressable;
  in_bounds = subst (λ n. AllInBounds n rs) (sym (size-set_from t size base false)) e.in_bounds.1;
  exact = λ j below. bit j (rw (size-set_from t size base false) at below);
}
  where
    bit :
        (j : ℕ)
        → j < t.size
        → cover j rs ≡ (if bitarray_get (set_from t size base false) j then 1 else 0)
    bit j below =
        ground (arith, get-set_from t size base j false e.packed e.in_bounds.0, e.exact j below)

size-create : (n : ℕ) → (bitarray_create n).size ≡ n
unfolding bitarray_create
size-create n = refl

-- A new table has no region in use, if its size is below 2^32 - 1.
pub create-IsExact : (n : ℕ) → n < minus_one → IsExact (bitarray_create n) []
create-IsExact n small = record {
  packed = create-IsBitarray n;
  addressable = rw (size-create n) small;
  in_bounds = tt;
  exact = λ j below. rw (get-create n j) refl;
}

-- In a table of less than 2^32 - 1 bits, where `is_malloc_possible` answers false for a request of
-- at least one byte, every algorithm answers -1 and the table is unchanged.
pub impossible_is_refused :
    (a : Algoritmo) (t : Bitarray) (size : ℕ)
    → t.size < minus_one
    → 0 < size
    → is_malloc_possible t size ≡ false
    → get_base_adress a t size ≡ (minus_one, t)
unfolding is_malloc_possible get_base_adress
impossible_is_refused a t size small positive impossible =
    elim (choose_base_lem a t size small positive) [
      | inl (hole, _) ↦
          let base = choose_base a t size in
          absurd (
            ground (
              arith,
              (free_space_iff t base size (omega (arith, hole.0))).0 hole,
              run_le_total t base (omega (arith, hole.0)),
            ))
      | inr refused ↦
          let test : (choose_base a t size == minus_one) ≡ true = ground arith in
          rw (test, refused) refl
    ]
