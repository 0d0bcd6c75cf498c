-- ===== src/Cpu/Ciclo.antt =====
-- cpu/src/instruction_cycle.c: fetch, decode and execute, and the loop of the cycles;
-- cpu/src/server_handle.c: a context of the kernel. What only the log reads is followed where it may
-- be NULL.
pub mod Contexto
pub mod Final
pub mod Pasos
use mathlib.Core.Option
use tp_2023_1c_kernel_flow.Base.{
  ℕ, zero, suc, ◌+◌, Bool, true, false, Option, none, some, List, [], ◌∷◌, ◌++◌, ◌==◌,
  if◌then◌else◌, bind, length, get_elem?,
}
use tp_2023_1c_kernel_flow.Wire.Types.{
  Instruccion, Identificador, i_set, i_mov_in, i_mov_out, i_f_read, i_f_write, i_create_segment,
  other, Pcontexto, PcontextoDesalojo, StatusCode, Segment, success, segmentation_fault,
  out_of_memory,
}
use tp_2023_1c_kernel_flow.Wire.Bytes.{u32}
use tp_2023_1c_kernel_flow.Wire.Duplicados.{registers_duplicate, instruccion_duplicate}
use tp_2023_1c_kernel_flow.Cpu.Estado.{
  Library, Cpu, M, pure, ask, ◌>>=◌, ◌>>◌, follow, set_registers, set_seg_fault, set_ejecutando,
}
use tp_2023_1c_kernel_flow.Cpu.Mmu.{
  get_direccion_fisica, chequear_seg_fault_movs, checkear_seg_fault,
  chequear_seg_fault_segment_size,
}
use tp_2023_1c_kernel_flow.Cpu.Instrucciones.{
  create_new_instruction, set_register, mov_in, mov_out, stop_exec,
}

unfoldable pub next_instruction : M (Unit {0})
next_instruction c = some (
  tt,
  record c {
    contexto = record c.contexto { program_counter = u32 (c.contexto.program_counter + 1) };
  },
)

-- NULL past the last instruction, which is followed at once.
unfoldable pub fetch : M Instruccion
fetch = do
  contexto ← ask (λ c. c.contexto)
  next_instruction
  follow (get_elem? contexto.instructions contexto.program_counter)

-- `list_add`, and `list_remove` of the third.
unfoldable pub with_logica : List ℕ → Instruccion → Instruccion
with_logica dir_logica x = record x { parametros = x.parametros ++ dir_logica ∷ [] }

unfoldable pub first_two : List (List ℕ) → List (List ℕ)
first_two (p ∷ q ∷ r ∷ rest) = p ∷ q ∷ rest
first_two parametros = parametros

unfoldable pub without_logica : Instruccion → Instruccion
without_logica x = record x { parametros = first_two x.parametros }

module _ (lib : Library) where
  open lib use {string_duplicate}

  -- The logical address is the second parameter of MOV_IN and the first of MOV_OUT.
  unfoldable pub cambiar_dir_logica_a_fisica_mov_in :
      Instruccion → List Segment → Option Instruccion
  cambiar_dir_logica_a_fisica_mov_in x segments = bind (get_elem? x.parametros 1) λ dir_logica.
      bind (get_direccion_fisica lib dir_logica segments) λ fisica.
        Option.map
          (λ registro.
            create_new_instruction lib x.identificador (string_duplicate registro ∷ fisica ∷ []))
          (get_elem? x.parametros 0)

  unfoldable pub cambiar_dir_logica_a_fisica_mov_out :
      Instruccion → List Segment → Option Instruccion
  cambiar_dir_logica_a_fisica_mov_out x segments = bind (get_elem? x.parametros 0) λ dir_logica.
      bind (get_direccion_fisica lib dir_logica segments) λ fisica.
        Option.map
          (λ registro.
            create_new_instruction lib x.identificador (fisica ∷ string_duplicate registro ∷ []))
          (get_elem? x.parametros 1)

  unfoldable pub cambiar_dir_logica_a_fisica_files : Instruccion → List Segment → Option Instruccion
  cambiar_dir_logica_a_fisica_files x segments = bind (get_elem? x.parametros 1) λ dir_logica.
      bind (get_direccion_fisica lib dir_logica segments) λ fisica.
        bind (get_elem? x.parametros 0) λ archivo.
          Option.map
            (λ size.
              create_new_instruction lib x.identificador
                (string_duplicate archivo ∷ fisica ∷ string_duplicate size ∷ []))
            (get_elem? x.parametros 2)

  -- The address checked, and translated where it is good.
  unfoldable pub decode_mov :
      (Instruccion → List Segment → Option Instruccion)
      → Option (List ℕ)
      → Option (List ℕ)
      → List Segment
      → Instruccion
      → M Instruccion
  decode_mov cambiar logica registro segments x = do
    dir_logica ← follow logica
    name ← follow registro
    fault ← follow (chequear_seg_fault_movs lib (string_duplicate dir_logica) segments name)
    set_seg_fault fault
    y ← (if fault then pure x else follow (cambiar x segments))
    pure (with_logica (string_duplicate dir_logica) y)

  -- On a fault the addresses of two local variables are in the list of parameters, and
  -- `instruccion_destroy` frees them: the program is over.
  unfoldable pub decode_file : List Segment → Instruccion → M Instruccion
  decode_file segments x = do
    fault ← follow (checkear_seg_fault lib x segments)
    set_seg_fault fault
    if fault then follow none else follow (cambiar_dir_logica_a_fisica_files x segments)

  unfoldable pub decode_create : Instruccion → M Instruccion
  decode_create x = do
    fault ← follow (chequear_seg_fault_segment_size lib x)
    set_seg_fault fault
    pure x

  unfoldable pub decode_as : Identificador → List Segment → Instruccion → M Instruccion
  decode_as i_mov_in segments x =
      decode_mov cambiar_dir_logica_a_fisica_mov_in (get_elem? x.parametros 1)
        (get_elem? x.parametros 0) segments x
  decode_as i_mov_out segments x =
      decode_mov cambiar_dir_logica_a_fisica_mov_out (get_elem? x.parametros 0)
        (get_elem? x.parametros 1) segments x
  decode_as i_f_read segments x = decode_file segments x
  decode_as i_f_write segments x = decode_file segments x
  decode_as i_create_segment segments x = decode_create x
  decode_as _ segments x = pure x

  unfoldable pub decode : Instruccion → M Instruccion
  decode x = do
    copy ← follow (instruccion_duplicate string_duplicate x)
    contexto ← ask (λ c. c.contexto)
    decode_as copy.identificador contexto.segments copy

  -- After MOV_IN or MOV_OUT, with the third parameter taken off: NULL, and a fault without a value.
  unfoldable pub moved : Instruccion → Bool → M (Option PcontextoDesalojo × Instruccion)
  moved x true = pure (none, without_logica x)
  moved x false = set_seg_fault true >> pure (none, without_logica x)

  unfoldable pub stopped : Instruccion → M (Option PcontextoDesalojo × Instruccion)
  stopped x = stop_exec lib x success >>= (λ desalojo. pure (desalojo, x))

  -- The context, NULL where the cycle goes on, and the instruction as it is left.
  unfoldable pub execute_as :
      Identificador → Instruccion → M (Option PcontextoDesalojo × Instruccion)
  execute_as i_set x = do
    registro ← follow (get_elem? x.parametros 0)
    valor ← follow (get_elem? x.parametros 1)
    set_register lib registro valor
    pure (none, x)
  execute_as i_mov_in x = do
    registro ← follow (get_elem? x.parametros 0)
    fisica ← follow (get_elem? x.parametros 1)
    value ← mov_in lib registro fisica
    moved x value
  execute_as i_mov_out x = do
    fisica ← follow (get_elem? x.parametros 0)
    registro ← follow (get_elem? x.parametros 1)
    value ← mov_out lib fisica registro
    moved x value
  execute_as (other n) x = pure (none, x)
  execute_as _ x = stopped x

  -- What a fault of the check sends back.
  unfoldable pub fault_code : Identificador → StatusCode
  fault_code i_create_segment = out_of_memory
  fault_code _ = segmentation_fault

  unfoldable pub fault_instruction : Identificador → Instruccion → Instruccion
  fault_instruction i_mov_in x = without_logica x
  fault_instruction i_mov_out x = without_logica x
  fault_instruction _ x = x

  unfoldable pub checked_fault : Instruccion → M (Option PcontextoDesalojo)
  checked_fault x = do
    set_seg_fault false
    stop_exec lib (fault_instruction x.identificador x) (fault_code x.identificador)

  -- A fault that the memory reports stops the process in place of what the instruction answers.
  unfoldable pub memory_fault :
      Option PcontextoDesalojo → Instruccion → M (Option PcontextoDesalojo)
  memory_fault desalojo x = do
    fault ← ask (λ c. c.seg_fault)
    if fault then set_seg_fault false >> stop_exec lib x segmentation_fault else pure desalojo

  unfoldable pub execute_good : Instruccion → M (Option PcontextoDesalojo)
  execute_good x = do (desalojo, y) ← execute_as x.identificador x; memory_fault desalojo y

  unfoldable pub execute_instruction_cycle : M (Option PcontextoDesalojo)
  execute_instruction_cycle = do
    next ← fetch
    x ← decode next
    fault ← ask (λ c. c.seg_fault)
    if fault then checked_fault x else execute_good x

  -- The fuel is the number of cycles, and one more.
  unfoldable pub execute_cycles : ℕ → Option PcontextoDesalojo → M (Option PcontextoDesalojo)
  execute_cycles zero last = λ c. none
  execute_cycles (suc fuel) last = do
    running ← ask (λ c. c.ejecutando)
    if running then execute_instruction_cycle >>= execute_cycles fuel else pure last

  unfoldable pub execute_process : ℕ → M (Option PcontextoDesalojo)
  execute_process fuel = set_ejecutando true >> execute_cycles fuel none

  -- A context of the kernel: its registers in, and the registers of the CPU out.
  unfoldable pub process_contexto : ℕ → Pcontexto → M PcontextoDesalojo
  process_contexto fuel contexto = do
    registers ← follow (registers_duplicate contexto.registers)
    λ c. some (tt, record c { registers = registers; contexto = contexto })
    answer ← execute_process fuel
    desalojo ← follow answer
    after ← ask (λ c. c.registers)
    out ← follow (registers_duplicate after)
    pure (record desalojo { registers = out })
