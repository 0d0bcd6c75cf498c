-- ===== src/Filesystem/Acceso.antt =====
-- filesystem/src/filesystem_instructions.c: `read_file` and `write_file`. Both compute the same pieces
-- of the file, one after another, and copy each between the blocks and a stream; here the pieces are
-- computed first. An int that may become negative is kept as the uint32_t that it is compared as. The
-- answer of the memory is an argument. The log and the delays are not modelled.
pub mod Copias
pub mod Cobertura
pub mod Directo
pub mod Punteros
pub mod Vuelta
pub mod Tercero
use mathlib.Core.Option
use tp_2023_1c_kernel_flow.Base.{
  ℕ, zero, suc, ◌+◌, ◌-◌, ◌*◌, ◌/◌, ◌%◌, Bool, true, false, Option, none, some, List, [], ◌∷◌, leb,
  ltb, ◌==◌, bind, if◌then◌else◌, length, take, drop, replicate, get_elem?,
}
use tp_2023_1c_kernel_flow.Wire.Bytes.{u32, u32_max, read_block, copy_block}
use tp_2023_1c_kernel_flow.Wire.Types.{StatusCode, success, Info, InfoWrite}
use tp_2023_1c_kernel_flow.Memoria.Datos.{copy_into}
use tp_2023_1c_kernel_flow.Filesystem.Estado.{Fcb, Commons, Filesystem, M, load_fcb}
use tp_2023_1c_kernel_flow.Filesystem.Calculo.{obtener_punteros_indirectos}

-- One `memcpy`: where it starts in the blocks and in the stream, and its bytes.
pub record Piece : Type 0 where
  pub bloque : ℕ
  pub stream : ℕ
  pub bytes : ℕ

abbrev pub piece : ℕ → ℕ → ℕ → Piece
piece b s n = record { bloque = b; stream = s; bytes = n }

-- `a - b` of ints, as a uint32_t.
unfoldable pub sub_u32 : ℕ → ℕ → ℕ
sub_u32 a b = u32 (a + u32_max - b)

-- `punterosIndirectos[i]`: NULL, or an index past the end, is a fault.
unfoldable pub puntero_at : Option (List ℕ) → ℕ → Option ℕ
puntero_at none i = none
puntero_at (some ps) i = get_elem? ps i

-- The loop behind the direct block, with the rounds that are left: `restan` bytes are to be copied,
-- and `hechos` were.
unfoldable pub pieces_behind_direct :
    ℕ → Option (List ℕ) → (rounds i restan hechos : ℕ) → Option (List Piece)
pieces_behind_direct size punteros zero i restan hechos = some []
pieces_behind_direct size punteros (suc rounds) i restan hechos =
    let whole =
      pieces_behind_direct size punteros rounds (i + 1) (sub_u32 restan size) (hechos + size) in
    let last = pieces_behind_direct size punteros rounds (i + 1) restan hechos in
    bind (puntero_at punteros i) λ p.
      if ltb size restan
      then Option.map (λ rest. piece (u32 (p * size)) hechos size ∷ rest) whole
      else Option.map (λ rest. piece (u32 (p * size)) hechos restan ∷ rest) last

-- The loop of an access that starts behind the direct block: `offset` is 0 after a whole block.
unfoldable pub pieces_indirect :
    ℕ → Option (List ℕ) → (rounds i offset restan hechos : ℕ) → Option (List Piece)
pieces_indirect size punteros zero i offset restan hechos = some []
pieces_indirect size punteros (suc rounds) i offset restan hechos =
    let done = hechos + (size - offset) in
    let whole = pieces_indirect size punteros rounds (i + 1) 0 (sub_u32 restan done) done in
    let last = pieces_indirect size punteros rounds (i + 1) offset restan hechos in
    bind (puntero_at punteros i) λ p.
      if ltb size restan
      then Option.map (λ rest. piece (u32 (p * size) + offset) hechos (size - offset) ∷ rest) whole
      else Option.map (λ rest. piece (u32 (p * size) + offset) hechos restan ∷ rest) last

-- The number of blocks that the code counts.
unfoldable pub cantidad_de_bloques : (size offset cant_bytes : ℕ) → ℕ
cantidad_de_bloques size offset cant_bytes =
    let whole = cant_bytes / size in
    let rest = cant_bytes - whole * size in
    (whole + (if ltb (size - offset) rest then 1 else 0))
    + (if ltb 0 (cant_bytes % size) then 1 else 0)

-- The pieces of an access that starts in the direct block.
unfoldable pub pieces_from_direct :
    ℕ → Fcb → Option (List ℕ) → (cantidad offset cant_bytes : ℕ) → Option (List Piece)
pieces_from_direct size fcb punteros cantidad offset cant_bytes =
    let there = u32 (fcb.puntero_directo * size) + offset in
    let room = size - offset in
    if cantidad == 1
    then some (piece there 0 cant_bytes ∷ [])
    else Option.map (λ rest. piece there 0 room ∷ rest)
        (pieces_behind_direct size punteros (cantidad - 1) 0 (sub_u32 cant_bytes room) room)

-- All pieces of an access. A block size of 0 is a division by zero in C.
unfoldable pub pieces :
    ℕ → Fcb → Option (List ℕ) → (puntero_archivo cant_bytes : ℕ) → Option (List Piece)
pieces size fcb punteros puntero_archivo cant_bytes =
    let first_block = puntero_archivo / size in
    let offset = puntero_archivo - puntero_archivo / size * size in
    let cantidad = cantidad_de_bloques size offset cant_bytes in
    if first_block == 0
    then pieces_from_direct size fcb punteros cantidad offset cant_bytes
    else pieces_indirect size punteros cantidad (first_block - 1) offset cant_bytes 0

-- `memcpy` of each piece from the blocks to the stream, and from the stream to the blocks.
unfoldable pub copy_from_blocks : List Piece → List ℕ → List ℕ → Option (List ℕ)
copy_from_blocks [] blocks stream = some stream
copy_from_blocks (p ∷ ps) blocks stream =
    bind (read_block p.bytes (drop p.bloque blocks)) λ (block, _).
      bind (copy_into p.stream block stream) λ stream'. copy_from_blocks ps blocks stream'

unfoldable pub copy_to_blocks : List Piece → List ℕ → List ℕ → Option (List ℕ)
copy_to_blocks [] stream blocks = some blocks
copy_to_blocks (p ∷ ps) stream blocks =
    bind (read_block p.bytes (drop p.stream stream)) λ (block, _).
      bind (copy_into p.bloque block blocks) λ blocks'. copy_to_blocks ps stream blocks'

-- What the memory answers.
pub data Answer : Type 0 where
  status_answer : StatusCode → Answer
  info_answer : Info → Answer
  other_answer : Answer

unfoldable pub is_success : Answer → Bool
is_success (status_answer success) = true
is_success (status_answer _) = false
is_success (info_answer _) = false
is_success other_answer = false

-- The test of both.
unfoldable pub is_past_end : Fcb → ℕ → ℕ → Bool
is_past_end fcb puntero_archivo cant_bytes =
    ltb fcb.tamanio_archivo (u32 (puntero_archivo + cant_bytes))

module _ {c : Commons} where
  unfoldable pub pieces_of : Fcb → ℕ → ℕ → Filesystem c → Option (List Piece)
  pieces_of fcb puntero_archivo cant_bytes fs =
      bind (obtener_punteros_indirectos fcb fs)
        λ punteros. pieces fs.block_size fcb punteros puntero_archivo cant_bytes

  -- The bytes that are read; what `malloc` leaves in the stream is a parameter.
  unfoldable pub read_bytes : List ℕ → Fcb → ℕ → ℕ → Filesystem c → Option (List ℕ)
  read_bytes garbage fcb puntero_archivo cant_bytes fs =
      bind (pieces_of fcb puntero_archivo cant_bytes fs) λ ps. copy_from_blocks ps fs.blocks garbage

  -- The answer, and what is sent to the memory. `sent` is whether that could be sent, `answer` the
  -- package that arrives then.
  unfoldable pub read_file :
      List ℕ
      → List ℕ
      → (puntero_archivo cant_bytes direccion_fisica : ℕ) → (sent : Bool) → Answer
      → Filesystem c
      → Option (Bool × Option InfoWrite)
  read_file garbage nombre puntero_archivo cant_bytes direccion_fisica sent answer fs =
      elim (load_fcb nombre fs) [
        | none ↦ some (false, none)
        | some fcb ↦
            if is_past_end fcb puntero_archivo cant_bytes
            then some (false, none)
            else bind (read_bytes garbage fcb puntero_archivo cant_bytes fs) λ stream.
              bind (copy_block cant_bytes stream) λ block. some (
                if sent then is_success answer else false,
                some (record {
                  base_address = direccion_fisica;
                  info = record { block = block; size = cant_bytes };
                }),
              )
      ]

  -- The block that the memory answers is copied to the file. Any other answer is passed over.
  unfoldable pub write_answer :
      Fcb → (puntero_archivo cant_bytes : ℕ) → Answer → Filesystem c → Option (Bool × Filesystem c)
  write_answer fcb puntero_archivo cant_bytes (info_answer info) fs =
      bind (pieces_of fcb puntero_archivo cant_bytes fs) λ ps.
        Option.map (λ blocks. (true, record fs { blocks = blocks }))
          (copy_to_blocks ps info.block fs.blocks)
  write_answer fcb puntero_archivo cant_bytes (status_answer _) fs = some (true, fs)
  write_answer fcb puntero_archivo cant_bytes other_answer fs = some (true, fs)

  unfoldable pub write_file : List ℕ → (puntero_archivo cant_bytes : ℕ) → Answer → M c Bool
  write_file nombre puntero_archivo cant_bytes answer fs = elim (load_fcb nombre fs) [
    | none ↦ some (false, fs)
    | some fcb ↦
        if is_past_end fcb puntero_archivo cant_bytes
        then some (false, fs)
        else write_answer fcb puntero_archivo cant_bytes answer fs
  ]
