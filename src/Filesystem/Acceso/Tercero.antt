-- ===== src/Filesystem/Acceso/Tercero.antt =====
-- filesystem/src/filesystem_instructions.c: the bytes that are left are counted down by all that were
-- copied so far, so from the third block on they are wrong.
use tp_2023_1c_kernel_flow.Base.{
  ℕ, suc, ◌+◌, ◌-◌, ◌*◌, ◌/◌, ◌%◌, ◌<◌, ◌≤◌, ◌≡◌, inr, refl, ◌∙◌, true, false, Option, some, List,
  [], ◌∷◌, arith, ltb, ◌==◌, length, get_elem?,
}
use native.Mathlib.Nat.{div-eq_of_lt-le}
use tp_2023_1c_kernel_flow.Wire.Bytes.{u32, u32_max}
use tp_2023_1c_kernel_flow.Memoria.Datos.Copia.{
  copied, slice, copy_into_lem, length-copied, get-copied_outside, length-slice, read_slice,
}
use tp_2023_1c_kernel_flow.Filesystem.Estado.{Fcb, Commons, Filesystem}
use tp_2023_1c_kernel_flow.Filesystem.Calculo.{obtener_punteros_indirectos}
use tp_2023_1c_kernel_flow.Filesystem.Acceso.{
  Piece, piece, sub_u32, puntero_at, pieces_indirect, cantidad_de_bloques, pieces, copy_from_blocks,
  pieces_of, read_bytes,
}

-- One block behind another in the loop.
indirect_step :
    (size : ℕ) (punteros : Option (List ℕ)) (rounds i restan hechos p left : ℕ) (ps : List Piece)
    → puntero_at punteros i ≡ some p
    → ltb size restan ≡ true
    → sub_u32 restan (hechos + size) ≡ left
    → pieces_indirect size punteros rounds (i + 1) 0 left (hechos + size) ≡ some ps
    → pieces_indirect size punteros (suc rounds) i 0 restan hechos
      ≡ some (piece (u32 (p * size)) hechos size ∷ ps)
unfolding pieces_indirect
indirect_step size punteros rounds i restan hechos p left ps known more less rest =
    let whole : size - 0 ≡ size = omega arith in
    let start : u32 (p * size) + 0 ≡ u32 (p * size) = omega arith in
    rw (known, more, whole, less, start) (rw rest refl)

indirect_last :
    (size : ℕ) (punteros : Option (List ℕ)) (i restan hechos p : ℕ)
    → puntero_at punteros i ≡ some p
    → ltb size restan ≡ false
    → pieces_indirect size punteros 1 i 0 restan hechos
      ≡ some (piece (u32 (p * size)) hechos restan ∷ [])
unfolding pieces_indirect
indirect_last size punteros i restan hechos p known few =
    let start : u32 (p * size) + 0 ≡ u32 (p * size) = omega arith in rw (known, few, start) refl

module _ (size i p0 p1 p2 : ℕ) (punteros : Option (List ℕ)) (positive : 0 < size)
    (range : 3 * size < u32_max) (k0 : puntero_at punteros i ≡ some p0)
    (k1 : puntero_at punteros (i + 1) ≡ some p1)
    (k2 : puntero_at punteros (i + 1 + 1) ≡ some p2) where
  abbrev three : List Piece
  three =
      piece (u32 (p0 * size)) 0 size
      ∷ piece (u32 (p1 * size)) (0 + size) size
      ∷ piece (u32 (p2 * size)) (0 + size + size) 0
      ∷ []

  indirect_three : pieces_indirect size punteros 3 i 0 (3 * size) 0 ≡ some three
  unfolding sub_u32
  indirect_three =
      let last = indirect_last size punteros (i + 1 + 1) 0 (0 + size + size) p2 k2 (ground arith) in
      let second =
        indirect_step size punteros 1 (i + 1) (2 * size) (0 + size) p1 0 _ k1 (ground arith)
          (omega arith) last in
      indirect_step size punteros 2 i (3 * size) 0 p0 (2 * size) _ k0 (ground arith) (omega arith)
        second

  count_three : cantidad_de_bloques size 0 (3 * size) ≡ 3
  unfolding cantidad_de_bloques
  count_three =
      let whole : 3 * size / size ≡ 3 = div-eq_of_lt-le size (omega arith) (omega arith) in
      let left : 3 * size % size ≡ 0 = grind (arith, whole) in rw (whole, left) (ground arith)

  pieces-three : (fcb : Fcb) → pieces size fcb punteros ((i + 1) * size) (3 * size) ≡ some three
  unfolding pieces
  pieces-three fcb =
      let block : (i + 1) * size / size ≡ i + 1 =
        div-eq_of_lt-le size (omega arith) (grind arith) in
      let start : (i + 1) * size - (i + 1) * size ≡ 0 = omega arith in
      let behind : (i + 1 == 0) ≡ false = ground arith in
      let previous : i + 1 - 1 ≡ i = omega arith in
      rw (block, start, count_three, behind, previous) indirect_three

-- For a read of three whole blocks of a file, the first of them not the direct block, with its pointers
-- in the block of pointers and its blocks in the file of blocks: the stream is filled with the first
-- two blocks only, and every byte behind them is what `malloc` left there.
pub third_block_not_read :
    {c : Commons} (fs : Filesystem c) (fcb : Fcb) (punteros : Option (List ℕ)) (i p0 p1 p2 : ℕ)
    (garbage : List ℕ)
    → 0 < fs.block_size
    → 3 * fs.block_size < u32_max
    → obtener_punteros_indirectos fcb fs ≡ some punteros
    → puntero_at punteros i ≡ some p0
    → puntero_at punteros (i + 1) ≡ some p1
    → puntero_at punteros (i + 1 + 1) ≡ some p2
    → u32 (p0 * fs.block_size) + fs.block_size ≤ length fs.blocks
    → u32 (p1 * fs.block_size) + fs.block_size ≤ length fs.blocks
    → u32 (p2 * fs.block_size) + fs.block_size ≤ length fs.blocks
    → length garbage ≡ 3 * fs.block_size
    → (stream : List ℕ) × (read_bytes garbage fcb ((i + 1) * fs.block_size) (3 * fs.block_size) fs
        ≡ some stream)
      × (length stream ≡ 3 * fs.block_size)
      × ((j : ℕ) → 2 * fs.block_size ≤ j → get_elem? stream j ≡ get_elem? garbage j)
unfolding read_bytes pieces_of copy_from_blocks
third_block_not_read fs fcb punteros i p0 p1 p2 garbage positive range stored k0 k1 k2 f0 f1 f2
      sized =
    let n = fs.block_size in
    let b0 = slice (u32 (p0 * n)) n fs.blocks in
    let b1 = slice (u32 (p1 * n)) n fs.blocks in
    let b2 = slice (u32 (p2 * n)) 0 fs.blocks in
    let m0 = length-slice (u32 (p0 * n)) n fs.blocks f0 in
    let m1 = length-slice (u32 (p1 * n)) n fs.blocks f1 in
    let m2 = length-slice (u32 (p2 * n)) 0 fs.blocks (omega (arith, f2)) in
    let fit0 : 0 + length b0 ≤ length garbage = omega (arith, m0, sized) in
    let s0 = copied 0 b0 garbage in
    let l0 = length-copied 0 b0 garbage fit0 in
    let fit1 : 0 + n + length b1 ≤ length s0 = omega (arith, m1, l0, sized) in
    let s1 = copied (0 + n) b1 s0 in
    let l1 = length-copied (0 + n) b1 s0 fit1 in
    let fit2 : 0 + n + n + length b2 ≤ length s1 = omega (arith, m2, l1, l0, sized) in
    (
      copied (0 + n + n) b2 s1,
      rw (stored, pieces-three n i p0 p1 p2 punteros positive range k0 k1 k2 fcb)
          (rw (read_slice (u32 (p0 * n)) n fs.blocks f0) (
            rw (copy_into_lem 0 b0 garbage fit0) (
              rw (read_slice (u32 (p1 * n)) n fs.blocks f1) (
                rw (copy_into_lem (0 + n) b1 s0 fit1) (
                  rw (read_slice (u32 (p2 * n)) 0 fs.blocks (omega (arith, f2)))
                    (rw (copy_into_lem (0 + n + n) b2 s1 fit2) refl)))))),
      length-copied (0 + n + n) b2 s1 fit2 ∙ (l1 ∙ (l0 ∙ sized)),
      λ j behind.
          get-copied_outside (0 + n + n) b2 s1 fit2 j (inr (omega (arith, m2, behind)))
          ∙ (get-copied_outside (0 + n) b1 s0 fit1 j (inr (omega (arith, m1, behind)))
              ∙ get-copied_outside 0 b0 garbage fit0 j (inr (omega (arith, m0, behind)))),
    )
