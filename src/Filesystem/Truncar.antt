-- ===== src/Filesystem/Truncar.antt =====
-- filesystem/src/filesystem_instructions.c: files are created, opened and truncated. The log and the
-- delays are not modelled.
pub mod Cero
use mathlib.Core.Option
use tp_2023_1c_kernel_flow.Base.{
  ℕ, zero, suc, ◌+◌, ◌*◌, Bool, true, false, Option, none, some, List, [], ◌∷◌, ltb, ◌==◌,
  if◌then◌else◌, length, replicate, set, get_elem?,
}
use tp_2023_1c_kernel_flow.Wire.Bytes.{u32, u32s_bytes}
use tp_2023_1c_kernel_flow.Memoria.Algoritmos.{as_uint32}
use tp_2023_1c_kernel_flow.Memoria.Datos.{copy_into}
use tp_2023_1c_kernel_flow.Filesystem.Estado.{
  Fcb, Commons, Filesystem, M, pure, ◌>>=◌, ◌>>◌, ask, follow, get_cpb, load_fcb, create_fcb,
  update_fcb,
}
use tp_2023_1c_kernel_flow.Filesystem.Calculo.{
  calculate_additional_blocks, calculate_free_blocks, obtener_bloque_libre, set_free_block_bitmap,
  obtener_punteros_indirectos, cantidad_punteros_indirectos,
}

-- A write past the end of the array is a fault.
unfoldable pub put_pointer : List ℕ → ℕ → ℕ → Option (List ℕ)
put_pointer punteros i p = if ltb i (length punteros) then some (set punteros i p) else none

module _ {c : Commons} where
  unfoldable pub create_file : List ℕ → M c Bool
  create_file nombre = do created ← create_fcb nombre; pure true

  unfoldable pub open_file : List ℕ → Filesystem c → Bool
  open_file nombre fs = elim (load_fcb nombre fs) [ none ↦ false | some _ ↦ true ]

  unfoldable pub is_greater_than_max_size_file_allowed : Filesystem c → ℕ → Bool
  is_greater_than_max_size_file_allowed fs tamanio_archivo =
      ltb (u32 (fs.block_size * (1 + get_cpb fs))) tamanio_archivo

  -- The array of pointers is copied to its block.
  unfoldable pub write_pointers : ℕ → List ℕ → M c (Unit {0})
  write_pointers indirecto punteros fs =
      Option.map (λ blocks. (tt, record fs { blocks = blocks }))
        (copy_into (u32 (indirecto * fs.block_size)) (u32s_bytes punteros) fs.blocks)

  -- The first block of pointers, with one pointer in it.
  unfoldable pub grow_first : Fcb → M c Fcb
  grow_first fcb = do
    indirecto ← obtener_bloque_libre
    bloque ← obtener_bloque_libre
    cpb ← ask get_cpb
    punteros ← follow (put_pointer (replicate cpb 0) 0 (as_uint32 bloque))
    write_pointers (as_uint32 indirecto) punteros
    pure (record fcb { puntero_indirecto = as_uint32 indirecto })

  -- One pointer more in the block of pointers.
  unfoldable pub grow_next : Fcb → M c Fcb
  grow_next fcb = do
    leidos ← follow (← ask (obtener_punteros_indirectos fcb))
    punteros ← follow leidos
    cantidad ← follow (cantidad_punteros_indirectos leidos)
    bloque ← obtener_bloque_libre
    nuevos ← follow (put_pointer punteros cantidad (as_uint32 bloque))
    write_pointers fcb.puntero_indirecto nuevos
    pure fcb

  unfoldable pub grow_one : Fcb → M c Fcb
  grow_one fcb = if fcb.puntero_indirecto == 0 then grow_first fcb else grow_next fcb

  -- The loop over the additional blocks.
  unfoldable pub grow_blocks : ℕ → Fcb → M c Fcb
  grow_blocks zero fcb = pure fcb
  grow_blocks (suc bloques_adicionales) fcb = grow_one fcb >>= grow_blocks bloques_adicionales

  -- The direct block of a file that was empty.
  unfoldable pub grow_direct : Fcb → M c Fcb
  grow_direct fcb = do
    bloque ← obtener_bloque_libre
    pure (record fcb { puntero_directo = as_uint32 bloque })

  unfoldable pub grow_by : Fcb → ℕ → M c Fcb
  grow_by fcb zero = pure fcb
  grow_by fcb (suc bloques_adicionales) =
      if fcb.tamanio_archivo == 0
      then grow_direct fcb >>= grow_blocks bloques_adicionales
      else grow_blocks (suc bloques_adicionales) fcb

  -- The first blocks of an array of pointers.
  unfoldable pub free_first : ℕ → List ℕ → M c (Unit {0})
  free_first zero ps = pure tt
  free_first (suc n) [] = λ fs. none
  free_first (suc n) (p ∷ ps) = set_free_block_bitmap p >> free_first n ps

  -- The pointers of the file and the block that holds them are freed.
  unfoldable pub free_all : ℕ → List ℕ → Fcb → M c Fcb
  free_all cantidad punteros fcb = do
    free_first cantidad punteros
    set_free_block_bitmap fcb.puntero_indirecto
    pure (record fcb { puntero_indirecto = 0 })

  unfoldable pub shrink_to_zero : Fcb → M c Fcb
  shrink_to_zero fcb = do
    set_free_block_bitmap fcb.puntero_directo
    punteros ← follow (← ask (obtener_punteros_indirectos (record fcb { puntero_directo = 0 })))
    elim punteros [
      | none ↦ pure (record fcb { puntero_directo = 0 })
      | some ps ↦ do
        cantidad ← follow (cantidad_punteros_indirectos (some ps))
        free_all cantidad ps (record fcb { puntero_directo = 0 })
    ]

  -- The loop over the blocks to free, with the pointers that are left before index `i`. An index
  -- below 0 is a fault.
  unfoldable pub free_last : ℕ → ℕ → List ℕ → M c (List ℕ)
  free_last zero i punteros = pure punteros
  free_last (suc bloques_a_liberar) zero punteros = λ fs. none
  free_last (suc bloques_a_liberar) (suc i) punteros = do
    p ← follow (get_elem? punteros i)
    set_free_block_bitmap p
    free_last bloques_a_liberar i (set punteros i 0)

  unfoldable pub shrink_pointers : ℕ → ℕ → List ℕ → Fcb → M c Fcb
  shrink_pointers cantidad bloques_a_liberar punteros fcb =
      if cantidad == bloques_a_liberar then free_all cantidad punteros fcb else do
        quedan ← free_last bloques_a_liberar cantidad punteros
        write_pointers fcb.puntero_indirecto quedan
        pure fcb

  unfoldable pub shrink_to : Fcb → ℕ → M c Fcb
  shrink_to fcb nuevo_tamanio = do
    bloques_a_liberar ← ask (λ fs. calculate_free_blocks fs fcb nuevo_tamanio)
    punteros ← follow (← ask (obtener_punteros_indirectos fcb))
    elim punteros [
      | none ↦ pure fcb
      | some ps ↦ do
        cantidad ← follow (cantidad_punteros_indirectos (some ps))
        shrink_pointers cantidad bloques_a_liberar ps fcb
    ]

  unfoldable pub grow_to : Fcb → ℕ → M c Fcb
  grow_to fcb nuevo_tamanio = do
    adicionales ← ask (λ fs. calculate_additional_blocks fs fcb nuevo_tamanio)
    grow_by fcb adicionales

  unfoldable pub resize : Fcb → ℕ → M c Fcb
  resize fcb nuevo_tamanio =
      if ltb fcb.tamanio_archivo nuevo_tamanio
      then grow_to fcb nuevo_tamanio
      else if ltb nuevo_tamanio fcb.tamanio_archivo
      then (if nuevo_tamanio == 0 then shrink_to_zero fcb else shrink_to fcb nuevo_tamanio)
      else pure fcb

  unfoldable pub truncate_open : Fcb → ℕ → M c Bool
  truncate_open fcb nuevo_tamanio = do
    changed ← resize fcb nuevo_tamanio
    update_fcb (record changed { tamanio_archivo = nuevo_tamanio })
    pure true

  unfoldable pub truncate_file : List ℕ → ℕ → M c Bool
  truncate_file nombre nuevo_tamanio fs = elim (load_fcb nombre fs) [
    | none ↦ some (false, fs)
    | some fcb ↦
        if is_greater_than_max_size_file_allowed fs nuevo_tamanio
        then some (false, fs)
        else truncate_open fcb nuevo_tamanio fs
  ]
