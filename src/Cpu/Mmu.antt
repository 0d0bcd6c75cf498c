-- ===== src/Cpu/Mmu.antt =====
-- cpu/src/mmu.c: the translation of a logical address. The checks against the size of a segment are
-- in cpu/src/instruction_cycle.c.
pub mod Limites
use mathlib.Core.Option
use tp_2023_1c_kernel_flow.Base.{
  ℕ, zero, suc, ◌+◌, ◌-◌, ◌/◌, ◌%◌, Bool, true, false, Option, none, some, List, [], ◌∷◌, ◌==◌,
  if◌then◌else◌, bind, ltb, leb, not, ◌&&◌, get_elem?,
}
use tp_2023_1c_kernel_flow.Wire.Types.{Segment, Instruccion}
use tp_2023_1c_kernel_flow.Wire.Bytes.{u32, u32_max}
use tp_2023_1c_kernel_flow.Cpu.Estado.{Library}
use tp_2023_1c_kernel_flow.Cpu.Registros.{get_sizeof_register}

-- NULL is `none`.
unfoldable pub get_by_num_segmento : ℕ → List Segment → Option Segment
get_by_num_segmento n [] = none
get_by_num_segmento n (s ∷ rest) =
    let later = get_by_num_segmento n rest in if s.id == n then some s else later

-- An int is kept as the uint32_t of the same bits: it is negative from 2^31 on. A quotient is cut
-- towards 0, and a remainder has the sign of the dividend; the divisor is positive.
unfoldable pub is_negative_int : ℕ → Bool
is_negative_int a = leb 2147483648 a

unfoldable pub int_div : ℕ → ℕ → ℕ
int_div a b = if is_negative_int a then u32 (u32_max - (u32_max - a) / b) else a / b

unfoldable pub int_rem : ℕ → ℕ → ℕ
int_rem a b = if is_negative_int a then u32 (u32_max - (u32_max - a) % b) else a % b

-- `tamanio_a_leer_escribir + desplazamiento > segment->size`, where -1 is `none`: the sum of two ints
-- is compared as a uint32_t.
unfoldable pub exceeds : Option ℕ → ℕ → ℕ → Bool
exceeds none desplazamiento size = ltb size (u32 (4294967295 + desplazamiento))
exceeds (some n) desplazamiento size = ltb size (u32 (n + desplazamiento))

module _ (lib : Library) where
  open lib use {atoi, string_itoa, tam_max_segmento}

  unfoldable pub get_num_segmento : List ℕ → ℕ
  get_num_segmento dir_logica = int_div (atoi dir_logica) tam_max_segmento

  unfoldable pub get_desplazamiento_segmento : List ℕ → ℕ
  get_desplazamiento_segmento dir_logica = int_rem (atoi dir_logica) tam_max_segmento

  -- A segment that is NULL is a fault.
  unfoldable pub get_direccion_fisica : List ℕ → List Segment → Option (List ℕ)
  get_direccion_fisica dir_logica segments =
      Option.map (λ s. string_itoa (u32 (s.base_address + get_desplazamiento_segmento dir_logica)))
        (get_by_num_segmento (get_num_segmento dir_logica) segments)

  -- The log reads the size of the segment, so a segment that is NULL is a fault.
  unfoldable pub chequear_seg_fault_movs : List ℕ → List Segment → List ℕ → Option Bool
  chequear_seg_fault_movs dir_logica segments registro =
      Option.map
        (λ s.
          exceeds (get_sizeof_register registro) (get_desplazamiento_segmento dir_logica) s.size)
        (get_by_num_segmento (get_num_segmento dir_logica) segments)

  unfoldable pub checkear_seg_fault : Instruccion → List Segment → Option Bool
  checkear_seg_fault x segments = bind (get_elem? x.parametros 1) λ dir_logica.
      bind (get_elem? x.parametros 2) λ size.
        Option.map (λ s. exceeds (some (atoi size)) (get_desplazamiento_segmento dir_logica) s.size)
          (get_by_num_segmento (get_num_segmento dir_logica) segments)

  unfoldable pub chequear_seg_fault_segment_size : Instruccion → Option Bool
  chequear_seg_fault_segment_size x =
      Option.map (λ size. not (is_negative_int (atoi size)) && ltb tam_max_segmento (atoi size))
        (get_elem? x.parametros 1)
