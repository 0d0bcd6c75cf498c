-- ===== src/Cpu/Ciclo/Pasos.antt =====
-- cpu/src/instruction_cycle.c: what one instruction does, once it is fetched.
use tp_2023_1c_kernel_flow.Base.{
  ℕ, ◌+◌, ◌<◌, ◌≤◌, ◌≡◌, refl, false, none, some, List, [], ◌∷◌, ◌++◌, ◌==◌, drop, take, length,
  get_elem?,
}
use tp_2023_1c_kernel_flow.Wire.Types.{Instruccion, Segment, Registers, i_set, i_mov_in}
use tp_2023_1c_kernel_flow.Cpu.Estado.{
  Library, Cpu, ◌>>=◌, ◌>>◌, follow, set_registers, set_seg_fault,
}
use tp_2023_1c_kernel_flow.Cpu.Registros.{
  Registro, r_ax, r_bx, r_cx, r_dx, r_eax, r_ebx, r_ecx, r_edx, r_rax, r_rbx, r_rcx, r_rdx, is_text,
  get_register, get_sizeof_register, block_size, value_of,
}
use tp_2023_1c_kernel_flow.Cpu.Registros.Leyes.{registro_number, copy_into_register_lem}
use tp_2023_1c_kernel_flow.Cpu.Mmu.{get_by_num_segmento, get_num_segmento, chequear_seg_fault_movs}
use tp_2023_1c_kernel_flow.Wire.Bytes.{u32_max}
use tp_2023_1c_kernel_flow.Cpu.Mmu.Limites.{IsInside, checked_lem}
use tp_2023_1c_kernel_flow.Cpu.Instrucciones.{create_new_instruction, set_register}
use tp_2023_1c_kernel_flow.Cpu.Ciclo.{
  with_logica, cambiar_dir_logica_a_fisica_mov_in, decode_mov, decode_as, execute_as,
}

-- Let `string_duplicate` answer its text. For a MOV_IN to a register of n bytes, from a logical address
-- that is not negative, whose segment ends below 2^32, and whose check finds no fault, the decoding
-- succeeds, and its second parameter is the text of a physical address whose n bytes are all inside of
-- the segment that the logical address names.
pub decode_mov_in-IsInside :
    (lib : Library) (c : Cpu) (x : Instruccion) (segments : List Segment)
    (registro dir_logica : List ℕ) (n : ℕ)
    → ((text : List ℕ) → lib.string_duplicate text ≡ text)
    → lib.atoi dir_logica < 2147483648
    → ((s : Segment)
        → get_by_num_segmento (get_num_segmento lib dir_logica) segments ≡ some s
        → s.base_address + s.size < u32_max)
    → get_elem? x.parametros 0 ≡ some registro
    → get_elem? x.parametros 1 ≡ some dir_logica
    → get_sizeof_register registro ≡ some n
    → chequear_seg_fault_movs lib dir_logica segments registro ≡ some false
    → (a : ℕ) × (s : Segment) × (y : Instruccion) × (decode_as lib i_mov_in segments x c
        ≡ some (y, record c { seg_fault = false }))
      × (y.parametros ≡ registro ∷ lib.string_itoa a ∷ dir_logica ∷ [])
      × IsInside lib dir_logica segments n a s
unfolding decode_as decode_mov cambiar_dir_logica_a_fisica_mov_in set_seg_fault with_logica
    create_new_instruction
decode_mov_in-IsInside lib c x segments registro dir_logica n copies natural fit first second sized
      good =
    let (a, s, inside) = checked_lem lib dir_logica segments registro n natural fit sized good in
    let fisica = create_new_instruction lib x.identificador (registro ∷ lib.string_itoa a ∷ []) in
    let y = with_logica dir_logica fisica in
    let changed : cambiar_dir_logica_a_fisica_mov_in lib x segments ≡ some fisica =
      rw (second, inside.translated, first, copies registro) in
    (
      a,
      s,
      y,
      rw (second, follow, ◌>>=◌, first, copies dir_logica, good, ◌>>◌, changed, copies dir_logica),
      refl,
      inside,
    )

-- The names of the registers.
abbrev pub register_name : Registro → List ℕ
register_name r_ax = b'A' ∷ b'X' ∷ 0 ∷ []
register_name r_bx = b'B' ∷ b'X' ∷ 0 ∷ []
register_name r_cx = b'C' ∷ b'X' ∷ 0 ∷ []
register_name r_dx = b'D' ∷ b'X' ∷ 0 ∷ []
register_name r_eax = b'E' ∷ b'A' ∷ b'X' ∷ 0 ∷ []
register_name r_ebx = b'E' ∷ b'B' ∷ b'X' ∷ 0 ∷ []
register_name r_ecx = b'E' ∷ b'C' ∷ b'X' ∷ 0 ∷ []
register_name r_edx = b'E' ∷ b'D' ∷ b'X' ∷ 0 ∷ []
register_name r_rax = b'R' ∷ b'A' ∷ b'X' ∷ 0 ∷ []
register_name r_rbx = b'R' ∷ b'B' ∷ b'X' ∷ 0 ∷ []
register_name r_rcx = b'R' ∷ b'C' ∷ b'X' ∷ 0 ∷ []
register_name r_rdx = b'R' ∷ b'D' ∷ b'X' ∷ 0 ∷ []

get_register-register_name : (which : Registro) → get_register (register_name which) ≡ some which
unfolding get_register is_text
get_register-register_name r_ax = refl
get_register-register_name r_bx = refl
get_register-register_name r_cx = refl
get_register-register_name r_dx = refl
get_register-register_name r_eax = refl
get_register-register_name r_ebx = refl
get_register-register_name r_ecx = refl
get_register-register_name r_edx = refl
get_register-register_name r_rax = refl
get_register-register_name r_rbx = refl
get_register-register_name r_rcx = refl
get_register-register_name r_rdx = refl

-- For a SET of a register by its name, with a text that is no longer than the register, the register has
-- the characters of the text followed by what it had behind them, and every other register has what
-- it had.
pub execute_set_lem :
    (lib : Library) (c : Cpu) (x : Instruccion) (valor : List ℕ) (which : Registro)
    → get_elem? x.parametros 0 ≡ some (register_name which)
    → get_elem? x.parametros 1 ≡ some valor
    → lib.strlen valor ≤ length valor
    → lib.strlen valor ≤ block_size which
    → (r' : Registers) × (execute_as lib i_set x c ≡ some ((none, x), record c { registers = r' }))
      × (value_of which r'
          ≡ take (lib.strlen valor) valor ++ drop (lib.strlen valor) (value_of which c.registers))
      × ((other : Registro)
          → (registro_number other == registro_number which) ≡ false
          → value_of other r' ≡ value_of other c.registers)
unfolding execute_as set_register set_registers
execute_set_lem lib c x valor which first second text fits =
    let known = get_register-register_name which in
    let (r', copied, own, others) =
      copy_into_register_lem which (lib.strlen valor) valor c.registers fits text in
    (r', rw (first, second, follow, ◌>>=◌, known, copied), own, others)
