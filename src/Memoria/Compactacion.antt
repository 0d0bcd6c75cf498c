-- ===== src/Memoria/Compactacion.antt =====
-- memoria/src/compactacion.c, and `move_data` of memoria/src/utils.c. An int that may be -1 is an
-- option, `none` for -1; the size of a bit array is a size_t, which no index of -1 is below. What
-- `memcpy` leaves in a block that overlaps the one it reads is not defined by C, and a parameter. The
-- delay and the lock are not modelled.
pub mod Busqueda
pub mod Ronda
pub mod Hueco
pub mod Lugar
pub mod Paso
pub mod Bytes
pub mod Datos
pub mod Final
pub mod Progreso
pub mod Orden
pub mod Llena
use mathlib.Core.Option
use tp_2023_1c_kernel_flow.Base.{
  ℕ, zero, suc, ◌+◌, ◌-◌, Bool, true, false, not, ◌&&◌, Option, none, some, List, ltb, bind,
  if◌then◌else◌, drop,
}
use tp_2023_1c_kernel_flow.Wire.Bytes.{read_block}
use tp_2023_1c_kernel_flow.Wire.Types.{Segment}
use tp_2023_1c_kernel_flow.Memoria.Bitarray.{Bitarray, bitarray_get}
use tp_2023_1c_kernel_flow.Memoria.Algoritmos.{as_uint32}
use tp_2023_1c_kernel_flow.Memoria.Espacio.{set_from, get_base_adress}
use tp_2023_1c_kernel_flow.Memoria.Estado.{Memoria, store, get_segment_by_address}
use tp_2023_1c_kernel_flow.Memoria.Datos.{copy_into}

-- The loop upwards for a bit that passes a test, with the rounds that are left.
unfoldable pub find_up : (Bool → Bool) → Bitarray → ℕ → ℕ → Option ℕ
find_up test t zero i = none
find_up test t (suc rounds) i =
    let rest = find_up test t rounds (i + 1) in if test (bitarray_get t i) then some i else rest

unfoldable pub find_first_zero : Bitarray → Option ℕ
find_first_zero t = find_up not t t.size 0

-- The loop downwards, which ends above index 0.
unfoldable pub find_down : Bitarray → ℕ → Option ℕ
find_down t zero = none
find_down t (suc i) =
    let rest = find_down t i in if bitarray_get t (suc i) then some (suc i) else rest

unfoldable pub find_last_one : Bitarray → Option ℕ
find_last_one t = find_down t (t.size - 1)

unfoldable pub find_first_one_after_first_zero : Bitarray → Option ℕ → Option ℕ
find_first_one_after_first_zero t none = none
find_first_one_after_first_zero t (some i) = find_up (λ b. b) t (t.size - i) i

-- `first_zero < last_one`, of two ints.
unfoldable pub before : Option ℕ → Option ℕ → Bool
before none none = false
before none (some j) = true
before (some i) none = false
before (some i) (some j) = ltb i j

-- The bytes that `memcpy` leaves at `to`: `memcpy_overlap` where the blocks overlap.
unfoldable pub memcpy_bytes :
    (ℕ → ℕ → ℕ → List ℕ → List ℕ) → (to from size : ℕ) → (space bytes : List ℕ) → List ℕ
memcpy_bytes memcpy_overlap to from size space bytes =
    if ltb to (from + size) && ltb from (to + size)
    then memcpy_overlap to from size space
    else bytes

module _ (memcpy_overlap : (to from size : ℕ) → List ℕ → List ℕ) where
  unfoldable pub move_data : ℕ → ℕ → ℕ → List ℕ → Option (List ℕ)
  move_data to from size space =
      bind (read_block size (drop from space))
        λ (bytes, _). copy_into to (memcpy_bytes memcpy_overlap to from size space bytes) space

  -- The segment is taken from its place and placed again. Where none begins at the address, the loop
  -- follows NULL.
  unfoldable pub move_segment : ℕ → Segment → Memoria → Option Memoria
  move_segment p s m =
      let cleared = set_from m.free_space_table s.size s.base_address false in
      let placed = get_base_adress m.algorithm cleared s.size in
      bind (move_data placed.0 s.base_address s.size m.memory_space) λ space. some (record m {
        free_space_table = placed.1;
        memory_space = space;
        heap = store p (some (record s { base_address = placed.0 })) m.heap;
      })

  -- One round of the loop.
  unfoldable pub compact_round : Memoria → Option Memoria
  compact_round m =
      let first_zero = find_first_zero m.free_space_table in
      let first_one = find_first_one_after_first_zero m.free_space_table first_zero in
      bind (get_segment_by_address (as_uint32 first_one) m)
        λ found. bind found λ p. bind (m.heap p) λ s. move_segment p s m

  -- The loop, with fuel; `none` where a round faults, or the fuel runs out.
  unfoldable pub compact_memory : ℕ → Memoria → Option Memoria
  compact_memory zero m = none
  compact_memory (suc fuel) m =
      let rest = bind (compact_round m) (compact_memory fuel) in
      if before (find_first_zero m.free_space_table) (find_last_one m.free_space_table)
      then rest
      else some m
