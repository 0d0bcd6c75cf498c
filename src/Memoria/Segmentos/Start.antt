-- ===== src/Memoria/Segmentos/Start.antt =====
-- memoria/src/estructuras.c: the state in which the memory process starts.
use tp_2023_1c_kernel_flow.Base.{
  ℕ, ◌+◌, ◌<◌, ◌≤◌, ◌≡◌, ◌≢◌, ◌∙◌, inl, inr, refl, ap, true, false, none, some, [], arith, ◌==◌,
  length, length-replicate, replicate, ◌∷◌, Bool-cases,
}
use tp_2023_1c_kernel_flow.Wire.Bytes.{u32}
use tp_2023_1c_kernel_flow.Wire.Types.{Segment}
use tp_2023_1c_kernel_flow.Memoria.Bitarray.{Bitarray, bitarray_create, bitarray_get}
use tp_2023_1c_kernel_flow.Memoria.Bitarray.Laws.{get-create, IsBitarray, create-IsBitarray}
use tp_2023_1c_kernel_flow.Memoria.Algoritmos.{minus_one}
use tp_2023_1c_kernel_flow.Memoria.Algoritmos.Runs.{IsHole}
use tp_2023_1c_kernel_flow.Memoria.Algoritmos.Starts.{IsStart}
use tp_2023_1c_kernel_flow.Memoria.Algoritmos.FirstFit.{first_fit_lowest}
use tp_2023_1c_kernel_flow.Memoria.Algoritmos.BestFit.{best_fit_smallest, worst_fit_largest}
use tp_2023_1c_kernel_flow.Memoria.Espacio.{
  Algoritmo, first, best, worst, unrecognised, choose_base, get_base_adress, bitarray_clean_all,
  is_malloc_possible,
}
use tp_2023_1c_kernel_flow.Memoria.Espacio.Ranges.{size-set_from, set_from-IsBitarray, get-set_from}
use tp_2023_1c_kernel_flow.Memoria.Espacio.Regions.{
  IsExact, get_base_adress-IsExact, impossible_is_refused,
}
use tp_2023_1c_kernel_flow.Memoria.Estado.{Memoria, store}
use tp_2023_1c_kernel_flow.Memoria.Segmentos.{new_segment, create_segment, start_memory}
use tp_2023_1c_kernel_flow.Memoria.Segmentos.Create.{IsMemoria}

module _ (t : Bitarray) (size : ℕ) (small : t.size < minus_one) (positive : 0 < size)
    (fits : size ≤ t.size) (empty : (j : ℕ) → bitarray_get t j ≡ false) where
  hole : IsHole t 0 size
  hole = (omega arith, λ d below. empty (0 + d))

  start : IsStart t 0
  start = (omega arith, empty 0, λ j e. absurd (omega arith))

  choose_served : (a : Algoritmo) → a ≢ unrecognised → choose_base a t size ≢ minus_one
  unfolding choose_base
  choose_served first known refused = elim (first_fit_lowest t size positive) [
    | inl (r, e, found, _) ↦ omega (arith, found.0, refused, e)
    | inr (_, none_left) ↦ none_left 0 hole
  ]
  choose_served best known refused = elim (best_fit_smallest t size small) [
    | inl (_, found, _) ↦ omega (arith, found.0, refused)
    | inr (_, none_left) ↦ none_left 0 start hole
  ]
  choose_served worst known refused = elim (worst_fit_largest t size small) [
    | inl (_, found, _) ↦ omega (arith, found.0, refused)
    | inr (_, none_left) ↦ none_left 0 start hole
  ]
  choose_served unrecognised known refused = known refl

  base_served : (a : Algoritmo) → a ≢ unrecognised → (get_base_adress a t size).0 ≢ minus_one
  unfolding get_base_adress
  base_served a known refused =
      let other = choose_served a known in
      let test : (choose_base a t size == minus_one) ≡ false = ground arith in
      other (rw test at refused)

  possible : (a : Algoritmo) → a ≢ unrecognised → is_malloc_possible t size ≡ true
  possible a known = elim (Bool-cases (is_malloc_possible t size)) [
    | inl yes_it_is ↦ yes_it_is
    | inr short ↦
        let refused = impossible_is_refused a t size small positive short in
        absurd (base_served a known (ap (λ (placed : ℕ × Bitarray). placed.0) refused))
  ]

size-create : (n : ℕ) → (bitarray_create n).size ≡ n
unfolding bitarray_create
size-create n = refl

size-clean : (n : ℕ) → (bitarray_clean_all (bitarray_create n)).size ≡ n
unfolding bitarray_clean_all
size-clean n = size-set_from (bitarray_create n) (bitarray_create n).size 0 false ∙ size-create n

get-clean : (n j : ℕ) → bitarray_get (bitarray_clean_all (bitarray_create n)) j ≡ false
unfolding bitarray_clean_all
get-clean n j =
    let all : 0 + (bitarray_create n).size ≤ (bitarray_create n).size = omega arith in
    ground (
      arith,
      get-set_from (bitarray_create n) (bitarray_create n).size 0 j false (create-IsBitarray n) all,
      get-create n j,
    )

clean-IsBitarray : (n : ℕ) → IsBitarray (bitarray_clean_all (bitarray_create n))
unfolding bitarray_clean_all
clean-IsBitarray n =
    set_from-IsBitarray (bitarray_create n) (bitarray_create n).size 0 false (create-IsBitarray n)

clean-IsExact_all : (n : ℕ) → n < minus_one → IsExact (bitarray_clean_all (bitarray_create n)) []
clean-IsExact_all n small = record {
  packed = clean-IsBitarray n;
  addressable = rw (size-clean n) small;
  in_bounds = tt;
  exact = λ j below. rw (get-clean n j) refl;
}

-- The state before segment 0 is created.
abbrev initial : Algoritmo → ℕ → ℕ → Memoria
initial a n quantity = record {
  algorithm = a;
  memory_size = n;
  segment_quantity = quantity;
  memory_space = replicate n 0;
  free_space_table = bitarray_clean_all (bitarray_create n);
  segment_0 = 0;
  all_segments_tables = [];
  heap = λ p. none;
  fresh = 0;
}

initial-IsExact :
    (a : Algoritmo) (n size quantity : ℕ)
    → IsExact
        (get_base_adress a (bitarray_clean_all (bitarray_create n)) (u32 size)).1
        (((get_base_adress a (bitarray_clean_all (bitarray_create n)) (u32 size)).0, u32 size) ∷ [])
    → IsMemoria (new_segment 0 size (initial a n quantity)).1
unfolding new_segment store
initial-IsExact a n size quantity exact = record { exact = exact }

-- For one of the three algorithms, a memory of less than 2^32 - 1 bytes and a segment 0 of at
-- least one byte that is not larger: `start_memory` ends in a state whose bits set are those of
-- the allocated segments, segment 0 is allocated with its size at an address that is not -1, and
-- the memory has its size.
pub start_memory_lem :
    (a : Algoritmo) (memory_size zero_size quantity : ℕ)
    → a ≢ unrecognised
    → memory_size < minus_one
    → 0 < zero_size
    → zero_size ≤ memory_size
    → (m : Memoria) × (s : Segment) × (start_memory a memory_size zero_size quantity ≡ some m)
      × IsMemoria m
      × (m.heap m.segment_0 ≡ some s)
      × (s.size ≡ zero_size)
      × (s.base_address ≢ minus_one)
      × (length m.memory_space ≡ memory_size)
unfolding start_memory create_segment new_segment store
start_memory_lem a n zero_size quantity known small positive fits =
    let t = bitarray_clean_all (bitarray_create n) in
    let kept : u32 zero_size ≡ zero_size = omega arith in
    let can =
      possible t zero_size (rw (size-clean n) small) positive (rw (size-clean n) fits) (get-clean n)
        a known in
    let placed =
      base_served t zero_size (rw (size-clean n) small) positive (rw (size-clean n) fits)
        (get-clean n) a known in
    elim (get_base_adress-IsExact a t [] zero_size (clean-IsExact_all n small) positive) [
      | inr refused ↦ absurd (placed (ap (λ (p : ℕ × Bitarray). p.0) refused))
      | inl (_, exact) ↦
          let ok = initial-IsExact a n zero_size quantity (rw kept exact) in
          (
            record (new_segment 0 zero_size (initial a n quantity)).1 { segment_0 = 0 },
            record {
              id = u32 0;
              size = u32 zero_size;
              base_address = (get_base_adress a t (u32 zero_size)).0;
            },
            rw can refl,
            record { exact = ok.exact },
            refl,
            kept,
            rw kept placed,
            length-replicate n 0,
          )
    ]
