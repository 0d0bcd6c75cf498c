-- ===== src/Filesystem/Acceso/Vuelta.antt =====
-- filesystem/src/filesystem_instructions.c: what F_WRITE writes from the direct block on, F_READ reads.
use mathlib.Core.Option
use tp_2023_1c_kernel_flow.Base.{
  ℕ, suc, ◌+◌, ◌*◌, ◌%◌, ◌<◌, ◌≤◌, ◌≡◌, ◌⊎◌, Option, some, List, ◌∷◌, length, get_elem?,
}
use tp_2023_1c_kernel_flow.Wire.Bytes.{u32_max}
use tp_2023_1c_kernel_flow.Filesystem.Estado.{Fcb, Commons, Filesystem}
use tp_2023_1c_kernel_flow.Filesystem.Calculo.{obtener_punteros_indirectos}
use tp_2023_1c_kernel_flow.Filesystem.Acceso.{puntero_at, cantidad_de_bloques}
use tp_2023_1c_kernel_flow.Filesystem.Acceso.Cobertura.{AllNe, Distinct, AllFit}

-- An access that starts in the direct block, to a file whose pointers `qs` serve it. The blocks differ
-- and lie in the file of blocks, and the block of pointers is none of them.
pub record IsAccess {c : Commons} (fs : Filesystem c) (fcb : Fcb) (punteros : Option (List ℕ))
    (qs : List ℕ) (puntero_archivo cant_bytes : ℕ) : Type 0 where
  pub positive : 0 < fs.block_size
  pub small : length fs.blocks < u32_max
  pub in_direct : puntero_archivo < fs.block_size
  pub some_bytes : 0 < cant_bytes
  pub regular : (puntero_archivo ≡ 0) ⊎ (0 < cant_bytes % fs.block_size)
  pub within : puntero_archivo + cant_bytes ≤ fcb.tamanio_archivo
  pub size_range : fcb.tamanio_archivo < u32_max
  pub counted : cantidad_de_bloques fs.block_size puntero_archivo cant_bytes ≡ suc (length qs)
  pub stored : obtener_punteros_indirectos fcb fs ≡ some punteros
  pub known : (k : ℕ) → k < length qs → puntero_at punteros k ≡ get_elem? qs k
  pub distinct : Distinct (fcb.puntero_directo ∷ qs)
  pub fits : AllFit fs.block_size (length fs.blocks) (fcb.puntero_directo ∷ qs)
  pub own_block :
      (fcb.puntero_indirecto ≡ 0)
      ⊎ (AllNe fcb.puntero_indirecto (fcb.puntero_directo ∷ qs)
          × (fcb.puntero_indirecto * fs.block_size + fs.block_size ≤ length fs.blocks))

-- The bytes of every other block are as they were.
abbrev pub KeepsBlocks : ℕ → List ℕ → List ℕ → List ℕ → Type 0
KeepsBlocks size qs blocks blocks' =
    (q o : ℕ)
    → AllNe q qs
    → o < size
    → get_elem? blocks' (q * size + o) ≡ get_elem? blocks (q * size + o)
