-- ===== src/Cpu/Registros/Leyes.antt =====
-- cpu/src/instrutions.c: SET writes one register, and only it.
use tp_2023_1c_kernel_flow.Base.{
  ℕ, zero, suc, ◌≤◌, ◌≡◌, refl, arith, true, false, some, List, [], ◌∷◌, ◌++◌, ◌==◌, if◌then◌else◌,
  drop, take, leb, length,
}
use tp_2023_1c_kernel_flow.Wire.Types.{Registers}
use tp_2023_1c_kernel_flow.Wire.Bytes.{copy_block}
use tp_2023_1c_kernel_flow.Cpu.Registros.{
  Registro, r_ax, r_bx, r_cx, r_dx, r_eax, r_ebx, r_ecx, r_edx, r_rax, r_rbx, r_rcx, r_rdx,
  block_size, value_of, with_value, copy_into_register,
}

abbrev pub registro_number : Registro → ℕ
registro_number r_ax = 0
registro_number r_bx = 1
registro_number r_cx = 2
registro_number r_dx = 3
registro_number r_eax = 4
registro_number r_ebx = 5
registro_number r_ecx = 6
registro_number r_edx = 7
registro_number r_rax = 8
registro_number r_rbx = 9
registro_number r_rcx = 10
registro_number r_rdx = 11

value_of-with_value :
    (a b : Registro) (v : List ℕ) (r : Registers)
    → value_of a (with_value b v r)
      ≡ (if registro_number a == registro_number b then v else value_of a r)
unfolding value_of with_value
value_of-with_value a b v r = ground arith

copy_block-take :
    (n : ℕ) (block : List ℕ) → n ≤ length block → copy_block n block ≡ some (take n block)
unfolding copy_block
copy_block-take zero block h = refl
copy_block-take (suc n) [] h = absurd (omega (arith, h))
copy_block-take (suc n) (x ∷ block) h = rw (copy_block-take n block (omega (arith, h)))

-- What a copy that fits leaves in the register, and in the others.
pub copy_into_register_lem :
    (which : Registro) (n : ℕ) (bytes : List ℕ) (r : Registers)
    → n ≤ block_size which
    → n ≤ length bytes
    → (r' : Registers) × (copy_into_register which n bytes r ≡ some r')
      × (value_of which r' ≡ take n bytes ++ drop n (value_of which r))
      × ((a : Registro)
          → (registro_number a == registro_number which) ≡ false
          → value_of a r' ≡ value_of a r)
unfolding copy_into_register
copy_into_register_lem which n bytes r fits given =
    let v = take n bytes ++ drop n (value_of which r) in
    let small : leb n (block_size which) ≡ true = ground (arith, fits) in
    let own : (registro_number which == registro_number which) ≡ true = ground arith in
    (
      with_value which v r,
      rw (small, copy_block-take n bytes given),
      rw (value_of-with_value which which v r, own),
      (λ a differs. rw (value_of-with_value a which v r, differs)),
    )
