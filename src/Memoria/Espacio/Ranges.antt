-- ===== src/Memoria/Espacio/Ranges.antt =====
-- memoria/src/utils.c and memoria/src/segmentos.c: what the loops over a range of bits do.
use tp_2023_1c_kernel_flow.Base.{
  ℕ, zero, suc, ◌+◌, ◌-◌, ◌≤◌, ◌≡◌, ◌∙◌, refl, Bool, ◌&&◌, arith, leb, ltb, if◌then◌else◌,
}
use tp_2023_1c_kernel_flow.Memoria.Bitarray.{Bitarray, bitarray_get, bitarray_set}
use tp_2023_1c_kernel_flow.Memoria.Bitarray.Laws.{IsBitarray, set-IsBitarray, get-set, size-set}
use tp_2023_1c_kernel_flow.Memoria.Algoritmos.{get_free_space}
use tp_2023_1c_kernel_flow.Memoria.Algoritmos.Runs.{free_space_step, free_space_end}
use tp_2023_1c_kernel_flow.Memoria.Espacio.{set_from, count_free}

pub size-set_from : (t : Bitarray) (n i : ℕ) (v : Bool) → (set_from t n i v).size ≡ t.size
unfolding set_from
size-set_from t zero i v = refl
size-set_from t (suc n) i v = size-set_from (bitarray_set t i v) n (i + 1) v ∙ size-set t i v

pub set_from-IsBitarray :
    (t : Bitarray) (n i : ℕ) (v : Bool) → IsBitarray t → IsBitarray (set_from t n i v)
unfolding set_from
set_from-IsBitarray t zero i v h = h
set_from-IsBitarray t (suc n) i v h =
    set_from-IsBitarray (bitarray_set t i v) n (i + 1) v (set-IsBitarray t i v h)

-- An index lies in the range of n bits from i.
abbrev pub inside : ℕ → ℕ → ℕ → Bool
inside i n j = leb i j && ltb j (i + n)

-- The bits of the range take the value, every other bit is as it was.
pub get-set_from :
    (t : Bitarray) (n i j : ℕ) (v : Bool)
    → IsBitarray t
    → i + n ≤ t.size
    → bitarray_get (set_from t n i v) j ≡ (if inside i n j then v else bitarray_get t j)
unfolding set_from
get-set_from t zero i j v h fits = ground arith
get-set_from t (suc n) i j v h fits =
    let sized = size-set t i v in
    ground (
      arith,
      get-set t i j v h (omega arith),
      get-set_from (bitarray_set t i v) n (i + 1) j v (set-IsBitarray t i v h) (omega arith),
    )

run_le_count :
    (t : Bitarray) (rounds i : ℕ) → i + rounds ≡ t.size → get_free_space t i ≤ count_free t rounds i
unfolding count_free
run_le_count t zero i h = omega (arith, free_space_end t i (omega arith))
run_le_count t (suc rounds) i h =
    ground (arith, free_space_step t i (omega arith), run_le_count t rounds (i + 1) (omega arith))

count_split :
    (t : Bitarray) (d rounds i : ℕ)
    → i + d + rounds ≡ t.size
    → get_free_space t (i + d) ≤ count_free t (d + rounds) i
unfolding count_free
count_split t zero rounds i h =
    let here : i + 0 ≡ i = omega arith in
    let left : 0 + rounds ≡ rounds = omega arith in
    rw (here, left) (run_le_count t rounds i (omega arith))
count_split t (suc d) rounds i h =
    let here : i + suc d ≡ i + 1 + d = omega arith in
    let left : suc d + rounds ≡ suc (d + rounds) = omega arith in
    rw (here, left) (ground (arith, count_split t d rounds (i + 1) (omega arith)))

-- A run has no more bits than are free in all.
pub run_le_total : (t : Bitarray) (i : ℕ) → i ≤ t.size → get_free_space t i ≤ count_free t t.size 0
run_le_total t i h =
    let all : i + (t.size - i) ≡ t.size = omega arith in
    let here : 0 + i ≡ i = omega arith in
    let split = count_split t i (t.size - i) 0 (omega arith) in rw (here, all) at split
