-- ===== src/Filesystem/Calculo.antt =====
-- filesystem/src/filesystem_calculate.c: numbers of blocks, free blocks and indirect pointers. Sizes
-- are uint32_t and wrap; an int that may be -1 is an option, `none` for -1. The delay of an access to
-- a block is not modelled.
pub mod Libre
use mathlib.Core.Option
use tp_2023_1c_kernel_flow.Base.{
  ℕ, zero, suc, ◌+◌, ◌-◌, ◌*◌, ◌/◌, Option, none, some, List, [], ◌∷◌, ltb, ◌==◌, bind,
  if◌then◌else◌, replicate, drop,
}
use tp_2023_1c_kernel_flow.Wire.Bytes.{u32, u32_max, read_u32}
use tp_2023_1c_kernel_flow.Filesystem.Estado.{Fcb, Commons, Filesystem, M, get_bitmap_size, get_cpb}

-- The loop over the block of pointers, with the rounds that are left: it ends behind the first 0,
-- and the rest of the array is 0.
unfoldable pub read_pointers : List ℕ → ℕ → ℕ → Option (List ℕ)
read_pointers blocks zero offset = some []
read_pointers blocks (suc rounds) offset =
    let rest = read_pointers blocks rounds (u32 (offset + 4)) in
    bind (read_u32 (drop offset blocks))
      λ (p, _). if p == 0 then some (0 ∷ replicate rounds 0) else bind rest λ ps. some (p ∷ ps)

module _ {c : Commons} where
  -- The blocks that so many bytes take. A block size of 0 is a division by zero in C.
  unfoldable pub blocks_of : Filesystem c → ℕ → ℕ
  blocks_of fs size = u32 (size + fs.block_size - 1) / fs.block_size

  unfoldable pub calculate_additional_blocks : Filesystem c → Fcb → ℕ → ℕ
  calculate_additional_blocks fs fcb nuevo_tamanio =
      u32 (blocks_of fs nuevo_tamanio + u32_max - blocks_of fs fcb.tamanio_archivo)

  unfoldable pub calculate_free_blocks : Filesystem c → Fcb → ℕ → ℕ
  calculate_free_blocks fs fcb nuevo_tamanio =
      u32 (blocks_of fs fcb.tamanio_archivo + u32_max - blocks_of fs nuevo_tamanio)

  -- The loop of `obtener_bloque_libre`, with the rounds that are left.
  unfoldable pub find_free : Filesystem c → ℕ → ℕ → Option ℕ
  find_free fs zero i = none
  find_free fs (suc rounds) i =
      let rest = find_free fs rounds (i + 1) in
      if c.bitarray_test_bit fs.bitmap i then rest else some i

  -- The block found is marked.
  unfoldable pub mark : Option ℕ → Filesystem c → Filesystem c
  mark none fs = fs
  mark (some i) fs = record fs { bitmap = c.bitarray_set_bit fs.bitmap i }

  unfoldable pub obtener_bloque_libre : M c (Option ℕ)
  obtener_bloque_libre fs = let found = find_free fs fs.block_count 0 in some (found, mark found fs)

  -- A block outside of the bitmap is a fault.
  unfoldable pub set_free_block_bitmap : ℕ → M c (Unit {0})
  set_free_block_bitmap bloque fs =
      if ltb bloque (8 * get_bitmap_size fs)
      then some (tt, record fs { bitmap = c.bitarray_clean_bit fs.bitmap bloque })
      else none

  -- NULL is the inner `none`.
  unfoldable pub obtener_punteros_indirectos : Fcb → Filesystem c → Option (Option (List ℕ))
  obtener_punteros_indirectos fcb fs =
      let punteros =
        Option.map (λ ps. some ps)
          (read_pointers fs.blocks (get_cpb fs) (u32 (fs.block_size * fcb.puntero_indirecto))) in
      if fcb.puntero_indirecto == 0 then some none else punteros

-- The pointers before the first 0.
unfoldable pub count_pointers : List ℕ → ℕ
count_pointers [] = 0
count_pointers (p ∷ ps) = if p == 0 then 0 else suc (count_pointers ps)

unfoldable pub cantidad_punteros_indirectos : Option (List ℕ) → Option ℕ
cantidad_punteros_indirectos none = none
cantidad_punteros_indirectos (some ps) = some (count_pointers ps)
