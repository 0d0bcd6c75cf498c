-- ===== src/Examples/Memoria.antt =====
-- The theorems on the table of free space, applied to a memory of sixteen bytes.
use tp_2023_1c_kernel_flow.Base.{
  ℕ, ◌+◌, ◌<◌, ◌≤◌, ◌≡◌, ◌≢◌, ◌⊎◌, refl, true, false, [], ◌∷◌, arith, ◌==◌, if◌then◌else◌,
}
use tp_2023_1c_kernel_flow.Memoria.Bitarray.{
  Bitarray, bitarray_create, bitarray_set, bitarray_get, raise_bit, test_bit,
}
use tp_2023_1c_kernel_flow.Memoria.Bitarray.Laws.{IsBitarray, get-set, get-create}
use tp_2023_1c_kernel_flow.Memoria.Algoritmos.{
  minus_one, free_from, get_free_space, first_fit_from, first_fit, fit_from, best_fit, worst_fit,
}
use tp_2023_1c_kernel_flow.Memoria.Algoritmos.Runs.{IsHole}
use tp_2023_1c_kernel_flow.Memoria.Algoritmos.FirstFit.{first_fit_lowest}
use tp_2023_1c_kernel_flow.Memoria.Algoritmos.BestFit.{
  IsOptimum, best_fit_smallest, worst_fit_largest,
}
use tp_2023_1c_kernel_flow.Memoria.Espacio.{
  set_from, bitarray_clean_from_and_how_many, count_free, is_malloc_possible, best, choose_base,
  get_base_adress,
}
use tp_2023_1c_kernel_flow.Memoria.Espacio.Regions.{
  IsExact, mark-IsExact, get_base_adress-IsExact, clean-IsExact, create-IsExact,
  impossible_is_refused,
}

-- An empty table, and one with the bits 2 to 4 and 8 set.
abbrev empty : Bitarray
empty = record { array = 0 ∷ 0 ∷ []; size = 16 }

abbrev holes : Bitarray
holes = record { array = 28 ∷ 1 ∷ []; size = 16 }

empty_lem : bitarray_create 16 ≡ empty
unfolding bitarray_create
empty_lem = refl

empty-IsBitarray : IsBitarray empty
empty-IsBitarray = record { enough = refl; bytes = (omega arith, (omega arith, tt)) }

holes-IsBitarray : IsBitarray holes
holes-IsBitarray = record { enough = refl; bytes = (omega arith, (omega arith, tt)) }

get-set_example :
    bitarray_get (bitarray_set holes 5 true) 4 ≡ (if 5 == 4 then true else bitarray_get holes 4)
get-set_example = get-set holes 5 4 true holes-IsBitarray (omega arith)

first_fit_lowest_example :
    ((r : ℕ) × (first_fit holes 3 ≡ r) × IsHole holes r 3 × ((k : ℕ) → k < r → ¬ IsHole holes k 3))
    ⊎ ((first_fit holes 3 ≡ minus_one) × ((k : ℕ) → ¬ IsHole holes k 3))
first_fit_lowest_example = first_fit_lowest holes 3 (omega arith)

best_fit_smallest_example : IsOptimum ◌≤◌ holes 2 (best_fit holes 2)
best_fit_smallest_example = best_fit_smallest holes 2 (omega arith)

worst_fit_largest_example : IsOptimum (λ a b. b ≤ a) holes 2 (worst_fit holes 2)
worst_fit_largest_example = worst_fit_largest holes 2 (omega arith)

-- Hole sizes are 2, 3 and 7.
first_fit_test : first_fit holes 3 ≡ 5
unfolding first_fit first_fit_from get_free_space free_from bitarray_get test_bit
first_fit_test = refl

best_fit_test : best_fit holes 2 ≡ 0
unfolding best_fit fit_from get_free_space free_from bitarray_get test_bit
best_fit_test = refl

worst_fit_test : worst_fit holes 2 ≡ 9
unfolding worst_fit fit_from get_free_space free_from bitarray_get test_bit
worst_fit_test = refl

refused_test : first_fit holes 8 ≡ minus_one
unfolding first_fit first_fit_from get_free_space free_from bitarray_get test_bit
refused_test = refl

created-IsExact : IsExact (bitarray_create 16) []
created-IsExact = create-IsExact 16 (omega arith)

get_base_adress-IsExact_example :
    (((get_base_adress best (bitarray_create 16) 4).0 ≢ minus_one)
      × IsExact
          (get_base_adress best (bitarray_create 16) 4).1
          (((get_base_adress best (bitarray_create 16) 4).0, 4) ∷ []))
    ⊎ (get_base_adress best (bitarray_create 16) 4 ≡ (minus_one, bitarray_create 16))
get_base_adress-IsExact_example =
    get_base_adress-IsExact best (bitarray_create 16) [] 4 created-IsExact (omega arith)

served_test : get_base_adress best holes 2 ≡ (0, record { array = 31 ∷ 1 ∷ []; size = 16 })
unfolding get_base_adress choose_base best_fit fit_from get_free_space free_from bitarray_get
    test_bit set_from bitarray_set raise_bit
served_test = refl

marked-IsExact : IsExact (set_from (bitarray_create 16) 4 3 true) ((3, 4) ∷ [])
unfolding bitarray_create
marked-IsExact =
    mark-IsExact (bitarray_create 16) [] 3 4 created-IsExact
      (omega arith, λ d below. get-create 16 (3 + d))

clean-IsExact_example :
    IsExact (bitarray_clean_from_and_how_many (set_from (bitarray_create 16) 4 3 true) 3 4) []
clean-IsExact_example = clean-IsExact (set_from (bitarray_create 16) 4 3 true) [] 3 4 marked-IsExact

full : is_malloc_possible holes 13 ≡ false
unfolding is_malloc_possible count_free bitarray_get test_bit
full = refl

impossible_is_refused_example : get_base_adress best holes 13 ≡ (minus_one, holes)
impossible_is_refused_example = impossible_is_refused best holes 13 (omega arith) (omega arith) full
