-- ===== src/Cpu/Instrucciones.antt =====
-- cpu/src/instrutions.c: the instructions that the CPU carries out, and the context that it sends
-- back.
use mathlib.Core.Option
use tp_2023_1c_kernel_flow.Base.{
  ℕ, zero, suc, ◌+◌, Bool, true, false, Option, none, some, List, [], ◌∷◌, ◌==◌, if◌then◌else◌,
  bind, length,
}
use tp_2023_1c_kernel_flow.Wire.Types.{
  Instruccion, Identificador, Pcontexto, PcontextoDesalojo, StatusCode, status_code_number, success,
}
use tp_2023_1c_kernel_flow.Wire.Bytes.{copy_block}
use tp_2023_1c_kernel_flow.Wire.Package.{Package, op_number, info, status_code}
use tp_2023_1c_kernel_flow.Wire.Communication.{get_info, get_status_code}
use tp_2023_1c_kernel_flow.Wire.Duplicados.{
  registers_duplicate, instruccion_duplicate, lista_instrucciones_duplicate,
}
use tp_2023_1c_kernel_flow.Cpu.Estado.{
  Library, read_request, write_request, M, pure, ask, ◌>>=◌, ◌>>◌, follow, set_registers,
  set_ejecutando, request, answer,
}
use tp_2023_1c_kernel_flow.Cpu.Registros.{
  get_register, get_sizeof_register, block_size, value_of, copy_into_register,
}

-- The size as a uint32_t, where -1 is `none`.
unfoldable pub size_u32 : Option ℕ → ℕ
size_u32 none = 4294967295
size_u32 (some n) = n

-- The first n lengths of p_length, and zeros after them.
unfoldable pub param_sizes : (List ℕ → ℕ) → List (List ℕ) → ℕ → List ℕ
param_sizes strlen parametros zero = []
param_sizes strlen [] (suc n) = 0 ∷ param_sizes strlen [] n
param_sizes strlen (p ∷ ps) (suc n) = (strlen p + 1) ∷ param_sizes strlen ps n

module _ (lib : Library) where
  open lib use {atoi, string_duplicate, strlen}

  -- For four parameters at most, as p_length has room for.
  unfoldable pub create_new_instruction : Identificador → List (List ℕ) → Instruccion
  create_new_instruction identificador parametros = record {
    identificador = identificador;
    cant_parametros = length parametros;
    parametros = parametros;
    p_length = param_sizes strlen parametros 4;
  }

  -- What `memcpy` copies of the text is without its NUL.
  unfoldable pub set_register : List ℕ → List ℕ → M (Unit {0})
  set_register registro valor = do
    which ← follow (get_register registro)
    before ← ask (λ c. c.registers)
    after ← follow (copy_into_register which (strlen valor) valor before)
    set_registers after

  -- Whether a value came: NULL is `false`.
  unfoldable pub info_received : List ℕ → Package → M Bool
  info_received registro p =
      if p.operation_code == op_number info
      then follow (get_register registro) >>= (λ which. follow (get_info p) >>= (λ i.
        ask (λ c. c.registers) >>= (λ before.
          follow (copy_into_register which (block_size which) i.block before)
          >>= (λ after. set_registers after >> pure true))))
      else pure false

  unfoldable pub mov_in : List ℕ → List ℕ → M Bool
  mov_in registro direccion_fisica = do
    request (
        read_request (record {
          base_address = atoi direccion_fisica;
          size = size_u32 (get_sizeof_register registro);
        }))
    p ← answer
    info_received registro p

  unfoldable pub status_received : Package → M Bool
  status_received p =
      if p.operation_code == op_number status_code
      then follow (get_status_code p)
        >>= (λ code. pure (status_code_number code == status_code_number success))
      else pure false

  -- A register that is NULL is read for its value.
  unfoldable pub mov_out : List ℕ → List ℕ → M Bool
  mov_out direccion_fisica registro = do
    which ← follow (get_register registro)
    registers ← ask (λ c. c.registers)
    value ← follow (copy_block (block_size which) (value_of which registers))
    request (
        write_request (record {
          base_address = atoi direccion_fisica;
          info = record { size = block_size which; block = value };
        }))
    p ← answer
    status_received p

  unfoldable pub copy_pcontexto : Pcontexto → Instruccion → StatusCode → Option PcontextoDesalojo
  copy_pcontexto contexto motivo code = bind (registers_duplicate contexto.registers) λ registers.
      bind (lista_instrucciones_duplicate string_duplicate contexto.instructions) λ instructions.
        Option.map
          (λ copy. record {
            pid = contexto.pid;
            program_counter = contexto.program_counter;
            registers = registers;
            instructions = instructions;
            motivo_desalojo = copy;
            status_code = code;
          })
          (instruccion_duplicate string_duplicate motivo)

  unfoldable pub stop_exec : Instruccion → StatusCode → M (Option PcontextoDesalojo)
  stop_exec x code = do
    set_ejecutando false
    contexto ← ask (λ c. c.contexto)
    desalojo ← follow (copy_pcontexto contexto x code)
    pure (some desalojo)
