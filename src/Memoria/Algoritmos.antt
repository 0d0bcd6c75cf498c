-- ===== src/Memoria/Algoritmos.antt =====
-- memoria/src/algoritmos.c, and the scans of memoria/src/utils.c and memoria/src/compactacion.c that
-- it rests on. A loop takes fuel, the size of the table at least: each round moves to the right.
pub mod Runs
pub mod FirstFit
pub mod Starts
pub mod Fit
pub mod BestFit
use tp_2023_1c_kernel_flow.Base.{
  ℕ, zero, suc, ◌+◌, ◌-◌, Bool, ◌&&◌, ◌||◌, Option, none, some, ltb, leb, ◌==◌, if◌then◌else◌,
}
use tp_2023_1c_kernel_flow.Memoria.Bitarray.{Bitarray, bitarray_get}

-- -1, as a uint32_t keeps it.
abbrev pub minus_one : ℕ
minus_one = 4294967295

-- An int that may be -1, `none` for -1, as a uint32_t.
unfoldable pub as_uint32 : Option ℕ → ℕ
as_uint32 none = minus_one
as_uint32 (some i) = i

-- The loop of `get_free_space` from an index, with the rounds that are left.
unfoldable pub free_from : Bitarray → ℕ → ℕ → ℕ
free_from t zero i = 0
free_from t (suc rounds) i = if bitarray_get t i then 0 else suc (free_from t rounds (i + 1))

unfoldable pub get_free_space : Bitarray → ℕ → ℕ
get_free_space t base = free_from t (t.size - base) base

-- The loop of `FIRST_FIT`; `i += size - 1`, then `i++`.
unfoldable pub first_fit_from : ℕ → Bitarray → ℕ → ℕ → ℕ
first_fit_from zero t need i = minus_one
first_fit_from (suc fuel) t need i =
    let size = get_free_space t i in
    let next = first_fit_from fuel t need (i + 1) in
    let past = first_fit_from fuel t need (i + (size - 1) + 1) in
    if leb t.size i
    then minus_one
    else if bitarray_get t i
    then next
    else if leb need size
    then i
    else past

unfoldable pub first_fit : Bitarray → ℕ → ℕ
first_fit t need = first_fit_from (suc t.size) t need 0

-- The loop that `BEST_FIT` and `WORST_FIT` share, up to the test on the size chosen so far.
unfoldable pub fit_from : (ℕ → ℕ → Bool) → ℕ → Bitarray → ℕ → ℕ → ℕ → ℕ → ℕ
fit_from better zero t need i chosen_size chosen_base = chosen_base
fit_from better (suc fuel) t need i chosen_size chosen_base =
    let size = get_free_space t i in
    let next = fit_from better fuel t need (i + 1) chosen_size chosen_base in
    let take = fit_from better fuel t need (i + (size - 1) + 1) size i in
    let past = fit_from better fuel t need (i + (size - 1) + 1) chosen_size chosen_base in
    if leb t.size i
    then chosen_base
    else if bitarray_get t i
    then next
    else if leb need size && (chosen_size == minus_one || better size chosen_size)
    then take
    else past

unfoldable pub best_fit : Bitarray → ℕ → ℕ
best_fit t need = fit_from (λ size best. ltb size best) (suc t.size) t need 0 minus_one minus_one

unfoldable pub worst_fit : Bitarray → ℕ → ℕ
worst_fit t need = fit_from (λ size worst. ltb worst size) (suc t.size) t need 0 minus_one minus_one
