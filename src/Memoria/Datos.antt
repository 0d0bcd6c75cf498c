-- ===== src/Memoria/Datos.antt =====
-- memoria/src/utils.c and memoria/src/modulos.c: the bytes of the memory, read and written for the
-- CPU and the file system. The delays, the lock and the log are not modelled.
pub mod ReadWrite
pub mod Copia
use mathlib.Core.Option
use tp_2023_1c_kernel_flow.Base.{
  ℕ, ◌+◌, Bool, true, false, Option, none, some, List, ◌++◌, ltb, bind, if◌then◌else◌, length, take,
  drop,
}
use tp_2023_1c_kernel_flow.Wire.Bytes.{u32, read_block, copy_block}
use tp_2023_1c_kernel_flow.Wire.Types.{
  StatusCode, segmentation_fault, success, Segment, SegmentsTable, Info, InfoRead, InfoWrite,
}
use tp_2023_1c_kernel_flow.Memoria.Estado.{Memoria, get_pid_by_address}

-- The test of both: the sum is taken in 32 bits, and the size of the memory is below 2^31.
unfoldable pub out_of_memory_space : ℕ → ℕ → Memoria → Bool
out_of_memory_space base_address size m = ltb m.memory_size (u32 (base_address + size))

-- NULL is the inner `none`.
unfoldable pub read_memory : ℕ → ℕ → Memoria → Option (Option Info)
read_memory base_address size m =
    let copied = read_block size (drop base_address m.memory_space) in
    if out_of_memory_space base_address size m
    then some none
    else Option.map (λ ((block, _) : List ℕ × List ℕ). some (record { block = block; size = size }))
        copied

-- memcpy into the memory: `none` past its end.
unfoldable pub copy_into : ℕ → List ℕ → List ℕ → Option (List ℕ)
copy_into base bytes space =
    if ltb (length space) (base + length bytes)
    then none
    else some (take base space ++ (bytes ++ drop (base + length bytes) space))

unfoldable pub write_memory : ℕ → ℕ → List ℕ → Memoria → Option (Bool × Memoria)
write_memory base_address size block m =
    let written =
      bind (copy_block size block) λ bytes. copy_into base_address bytes m.memory_space in
    if out_of_memory_space base_address size m
    then some (false, m)
    else Option.map (λ space. (true, record m { memory_space = space })) written

-- What the memory answers.
pub data Reply : Type 0 where
  status_reply : StatusCode → Reply
  info_reply : Info → Reply
  segment_reply : Segment → Reply
  table_reply : SegmentsTable → Reply

-- INFO_READ. The block is destroyed in the end, so NULL is a fault on both branches.
unfoldable pub handle_info_read : InfoRead → Memoria → Option Reply
handle_info_read request m = bind (read_memory request.base_address request.size m) λ result.
    bind (get_pid_by_address request.base_address m) λ pid.
      bind result λ info.
        some (elim pid [ none ↦ status_reply segmentation_fault | some _ ↦ info_reply info ])

-- INFO_WRITE.
unfoldable pub answer_write : Bool × Memoria → Reply × Memoria
answer_write (true, m) = (status_reply success, m)
answer_write (false, m) = (status_reply segmentation_fault, m)

unfoldable pub handle_info_write : InfoWrite → Memoria → Option (Reply × Memoria)
handle_info_write request m = bind (get_pid_by_address request.base_address m) λ pid. elim pid [
  | none ↦ some (status_reply segmentation_fault, m)
  | some _ ↦
      Option.map answer_write
        (write_memory request.base_address request.info.size request.info.block m)
]
