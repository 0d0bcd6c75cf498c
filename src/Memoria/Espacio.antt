-- ===== src/Memoria/Espacio.antt =====
-- memoria/src/segmentos.c and memoria/src/utils.c: the table of free space, on which segments are
-- placed and from which they are taken. Sizes are not negative; they come from `atoi`.
pub mod Ranges
pub mod Regions
use tp_2023_1c_kernel_flow.Base.{
  ℕ, zero, suc, ◌+◌, ◌-◌, Bool, true, false, leb, ◌==◌, if◌then◌else◌,
}
use tp_2023_1c_kernel_flow.Memoria.Bitarray.{Bitarray, bitarray_get, bitarray_set}
use tp_2023_1c_kernel_flow.Memoria.Algoritmos.{minus_one, first_fit, best_fit, worst_fit}

-- The loop that writes `value` from an index on, with the rounds that are left.
unfoldable pub set_from : Bitarray → ℕ → ℕ → Bool → Bitarray
set_from t zero i value = t
set_from t (suc rounds) i value = set_from (bitarray_set t i value) rounds (i + 1) value

unfoldable pub bitarray_clean_from_and_how_many : Bitarray → ℕ → ℕ → Bitarray
bitarray_clean_from_and_how_many t from how_many = set_from t how_many from false

unfoldable pub bitarray_clean_all : Bitarray → Bitarray
bitarray_clean_all t = set_from t t.size 0 false

-- The free bits from an index on, with the rounds that are left.
unfoldable pub count_free : Bitarray → ℕ → ℕ → ℕ
count_free t zero i = 0
count_free t (suc rounds) i = (if bitarray_get t i then 0 else 1) + count_free t rounds (i + 1)

unfoldable pub is_malloc_possible : Bitarray → ℕ → Bool
is_malloc_possible t size = leb size (count_free t t.size 0)

-- The value of ALGORITMO_ASIGNACION.
pub data Algoritmo : Type 0 where
  first best worst unrecognised : Algoritmo

unfoldable pub choose_base : Algoritmo → Bitarray → ℕ → ℕ
choose_base first t size = first_fit t size
choose_base best t size = best_fit t size
choose_base worst t size = worst_fit t size
choose_base unrecognised t size = minus_one

-- The address chosen, and the table with the bits of the segment set.
unfoldable pub get_base_adress : Algoritmo → Bitarray → ℕ → ℕ × Bitarray
get_base_adress algorithm t size =
    let base = choose_base algorithm t size in
    if base == minus_one then (base, t) else (base, set_from t size base true)
