-- ===== src/Cpu/Mmu/Limites.antt =====
-- cpu/src/mmu.c with the check of cpu/src/instruction_cycle.c: a translated address is inside of its
-- segment.
use tp_2023_1c_kernel_flow.Base.{
  ℕ, ◌+◌, ◌-◌, ◌/◌, ◌%◌, ◌<◌, ◌≤◌, ◌≡◌, refl, arith, true, false, leb, ltb, some, List, map_inverse,
}
use native.Mathlib.Nat.{mod-le, mod-eq_of_lt, div-eq_of_lt}
use tp_2023_1c_kernel_flow.Wire.Bytes.{u32, u32_max}
use tp_2023_1c_kernel_flow.Wire.Types.{Segment}
use tp_2023_1c_kernel_flow.Cpu.Estado.{Library}
use tp_2023_1c_kernel_flow.Cpu.Registros.{get_sizeof_register}
use tp_2023_1c_kernel_flow.Cpu.Mmu.{
  int_div, int_rem, is_negative_int, get_by_num_segmento, exceeds, get_num_segmento,
  get_desplazamiento_segmento, get_direccion_fisica, chequear_seg_fault_movs,
}

-- The physical address of an access of n bytes, inside of the segment that the logical one names.
pub record IsInside (lib : Library) (dir_logica : List ℕ) (segments : List Segment) (n a : ℕ)
    (s : Segment) : Type 0 where
  pub named : get_by_num_segmento (get_num_segmento lib dir_logica) segments ≡ some s
  pub translated : get_direccion_fisica lib dir_logica segments ≡ some (lib.string_itoa a)
  pub starts : s.base_address ≤ a
  pub ends : a + n ≤ s.base_address + s.size

register_small : (registro : List ℕ) (n : ℕ) → get_sizeof_register registro ≡ some n → n ≤ 16
unfolding get_sizeof_register
register_small registro n e = ground (arith, e)

displacement_small :
    (lib : Library) (dir_logica : List ℕ)
    → lib.atoi dir_logica < 2147483648
    → get_desplazamiento_segmento lib dir_logica < 2147483648
unfolding get_desplazamiento_segmento int_rem is_negative_int
displacement_small lib dir_logica natural =
    let sign : leb 2147483648 (lib.atoi dir_logica) ≡ false = ground (arith, natural) in
    let small = mod-le (lib.atoi dir_logica) lib.tam_max_segmento in
    rw sign (omega (arith, natural, small))

pub checked_lem :
    (lib : Library) (dir_logica : List ℕ) (segments : List Segment) (registro : List ℕ) (n : ℕ)
    → lib.atoi dir_logica < 2147483648
    → ((s : Segment)
        → get_by_num_segmento (get_num_segmento lib dir_logica) segments ≡ some s
        → s.base_address + s.size < u32_max)
    → get_sizeof_register registro ≡ some n
    → chequear_seg_fault_movs lib dir_logica segments registro ≡ some false
    → (a : ℕ) × (s : Segment) × IsInside lib dir_logica segments n a s
unfolding chequear_seg_fault_movs get_direccion_fisica exceeds
checked_lem lib dir_logica segments registro n natural fit sized good =
    let (s, named, within) =
      map_inverse _ (get_by_num_segmento (get_num_segmento lib dir_logica) segments) false
        (rw sized at good) in
    let d = get_desplazamiento_segmento lib dir_logica in
    let d_small : d < 2147483648 = displacement_small lib dir_logica natural in
    let n_small : n ≤ 16 = register_small registro n sized in
    let whole : u32 (n + d) ≡ n + d = omega (arith, d_small, n_small) in
    let ends : n + d ≤ s.size = let test = rw whole at within in ground (arith, test) in
    let address : u32 (s.base_address + d) ≡ s.base_address + d =
      omega (arith, fit s named, ends) in
    (
      s.base_address + d,
      s,
      record {
        named = named;
        translated = rw (named, address) refl;
        starts = omega arith;
        ends = omega (arith, ends);
      },
    )

-- A logical address of -k, for a register of n bytes of which k is no more, is taken to segment 0:
-- where that holds the other n - k bytes, the check lets it through, and it is translated to an
-- address k bytes before the segment.
pub negative_address_escapes :
    (lib : Library) (dir_logica : List ℕ) (segments : List Segment) (registro : List ℕ) (n k : ℕ)
    (s : Segment)
    → lib.atoi dir_logica + k ≡ u32_max
    → 0 < k
    → k ≤ n
    → k < lib.tam_max_segmento
    → get_sizeof_register registro ≡ some n
    → get_by_num_segmento 0 segments ≡ some s
    → n - k ≤ s.size
    → k ≤ s.base_address
    → s.base_address < u32_max
    → (chequear_seg_fault_movs lib dir_logica segments registro ≡ some false)
      × (get_direccion_fisica lib dir_logica segments ≡ some (lib.string_itoa (s.base_address - k)))
unfolding chequear_seg_fault_movs get_direccion_fisica exceeds get_num_segmento
    get_desplazamiento_segmento int_div int_rem is_negative_int
negative_address_escapes lib dir_logica segments registro n k s negative some_bytes within below
      sized named rest behind range =
    let n_small : n ≤ 16 = register_small registro n sized in
    let sign : leb 2147483648 (lib.atoi dir_logica) ≡ true =
      ground (arith, negative, within, n_small) in
    let size : u32_max - lib.atoi dir_logica ≡ k = omega (arith, negative) in
    let quotient : k / lib.tam_max_segmento ≡ 0 = div-eq_of_lt below in
    let remainder : k % lib.tam_max_segmento ≡ k = mod-eq_of_lt below in
    let wrapped : u32 (n + u32 (u32_max - k)) ≡ n - k =
      omega (arith, some_bytes, within, n_small) in
    let before : u32 (s.base_address + u32 (u32_max - k)) ≡ s.base_address - k =
      omega (arith, some_bytes, behind, range) in
    let inside : ltb s.size (n - k) ≡ false = ground (arith, rest) in
    (
      rw (sized, sign)
          (rw size (rw (quotient, remainder) (rw named (rw wrapped (rw inside refl))))),
      rw sign (rw size (rw (quotient, remainder) (rw named (rw before refl)))),
    )
