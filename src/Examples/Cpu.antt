-- ===== src/Examples/Cpu.antt =====
-- The CPU at a concrete context: MOV_IN AX 20 and SET AX HOLA.
use tp_2023_1c_kernel_flow.Base.{
  ℕ, ◌+◌, ◌<◌, subst, ◌-◌, ◌≡◌, refl, arith, true, false, none, some, List, [], ◌∷◌, ◌++◌, ◌==◌,
  length, get_or, take, drop,
}
use tp_2023_1c_kernel_flow.Wire.Types.{Instruccion, Registers, Segment, i_mov_in, i_set}
use tp_2023_1c_kernel_flow.Wire.Duplicados.{registers_create}
use tp_2023_1c_kernel_flow.Cpu.Estado.{Library, Cpu}
use tp_2023_1c_kernel_flow.Cpu.Registros.{
  Registro, r_ax, is_text, get_register, get_sizeof_register, block_size, value_of,
}
use tp_2023_1c_kernel_flow.Cpu.Registros.Leyes.{registro_number}
use tp_2023_1c_kernel_flow.Cpu.Mmu.{
  int_div, int_rem, is_negative_int, get_by_num_segmento, get_direccion_fisica, exceeds,
  get_num_segmento, get_desplazamiento_segmento, chequear_seg_fault_movs,
}
use tp_2023_1c_kernel_flow.Cpu.Mmu.Limites.{IsInside, negative_address_escapes}
use tp_2023_1c_kernel_flow.Wire.Bytes.{u32_max}
use tp_2023_1c_kernel_flow.Cpu.Ciclo.{decode_as, execute_as}
use tp_2023_1c_kernel_flow.Cpu.Ciclo.Pasos.{decode_mov_in-IsInside, execute_set_lem}
use tp_2023_1c_kernel_flow.Examples.Data.{set_ax, program}

-- A number is written as one character, and segments have at most 128 bytes.
abbrev lib : Library
lib = record {
  atoi = λ text. get_or text 0 0;
  string_itoa = λ n. n ∷ 0 ∷ [];
  string_duplicate = λ text. text;
  strlen = λ text. length text - 1;
  tam_max_segmento = 128;
}

abbrev segments : List Segment
segments = record { id = 0; size = 64; base_address = 512 } ∷ []

abbrev mov_in_ax : Instruccion
mov_in_ax = record {
  identificador = i_mov_in;
  cant_parametros = 2;
  p_length = 3 ∷ 2 ∷ 0 ∷ 0 ∷ [];
  parametros = (65 ∷ 88 ∷ 0 ∷ []) ∷ (20 ∷ 0 ∷ []) ∷ [];
}

abbrev cpu : Cpu
cpu = record {
  registers = registers_create;
  contexto = record {
    pid = 1;
    instructions = program;
    program_counter = 0;
    registers = registers_create;
    segments = segments;
  };
  ejecutando = true;
  seg_fault = false;
  sent = [];
  from_memory = [];
}

fits :
    (s : Segment)
    → get_by_num_segmento (get_num_segmento lib (20 ∷ 0 ∷ [])) segments ≡ some s
    → s.base_address + s.size < u32_max
unfolding get_by_num_segmento get_num_segmento int_div is_negative_int
fits s found =
    let known : some (record { id = 0; size = 64; base_address = 512 }) ≡ some s = found in
    let equal : record { id = 0; size = 64; base_address = 512 } ≡ s = cc known in
    subst (λ (x : Segment). x.base_address + x.size < u32_max) equal (omega arith)

decode_mov_in-IsInside_example :
    (a : ℕ) × (s : Segment) × (y : Instruccion) × (decode_as lib i_mov_in segments mov_in_ax cpu
      ≡ some (y, record cpu { seg_fault = false }))
    × (y.parametros ≡ (65 ∷ 88 ∷ 0 ∷ []) ∷ lib.string_itoa a ∷ (20 ∷ 0 ∷ []) ∷ [])
    × IsInside lib (20 ∷ 0 ∷ []) segments 4 a s
unfolding get_sizeof_register is_text chequear_seg_fault_movs get_by_num_segmento exceeds
    get_num_segmento get_desplazamiento_segmento int_div int_rem is_negative_int
decode_mov_in-IsInside_example =
    decode_mov_in-IsInside lib cpu mov_in_ax segments (65 ∷ 88 ∷ 0 ∷ []) (20 ∷ 0 ∷ []) 4
      (λ text. refl) (omega arith) (λ s found. fits s found) refl refl refl refl

execute_set_lem_example :
    (r' : Registers) × (execute_as lib i_set set_ax cpu
      ≡ some ((none, set_ax), record cpu { registers = r' }))
    × (value_of r_ax r'
        ≡ take 4 (72 ∷ 79 ∷ 76 ∷ 65 ∷ 0 ∷ []) ++ drop 4 (value_of r_ax cpu.registers))
    × ((other : Registro)
        → (registro_number other == registro_number r_ax) ≡ false
        → value_of other r' ≡ value_of other cpu.registers)
unfolding get_register is_text block_size
execute_set_lem_example =
    execute_set_lem lib cpu set_ax (72 ∷ 79 ∷ 76 ∷ 65 ∷ 0 ∷ []) r_ax refl refl (omega arith)
      (omega arith)

-- MOV_IN of a register of 16 bytes from -5.
negative_address_escapes_example :
    (chequear_seg_fault_movs lib (4294967291 ∷ 0 ∷ []) segments (82 ∷ 65 ∷ 88 ∷ 0 ∷ [])
      ≡ some false)
    × (get_direccion_fisica lib (4294967291 ∷ 0 ∷ []) segments ≡ some (507 ∷ 0 ∷ []))
unfolding get_sizeof_register is_text get_by_num_segmento
negative_address_escapes_example =
    negative_address_escapes lib (4294967291 ∷ 0 ∷ []) segments (82 ∷ 65 ∷ 88 ∷ 0 ∷ []) 16 5
      (record { id = 0; size = 64; base_address = 512 }) (omega arith) (omega arith) (omega arith)
      (omega arith) refl refl (omega arith) (omega arith) (omega arith)
