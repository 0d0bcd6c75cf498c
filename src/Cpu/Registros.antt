-- ===== src/Cpu/Registros.antt =====
-- cpu/src/instrutions.c and cpu/src/utils.c: the registers by their names.
pub mod Leyes
use mathlib.Core.Option
use tp_2023_1c_kernel_flow.Base.{
  ℕ, zero, suc, ◌+◌, Bool, true, false, Option, none, some, List, [], ◌∷◌, ◌++◌, ◌==◌, ◌||◌,
  if◌then◌else◌, drop, leb, length,
}
use tp_2023_1c_kernel_flow.Wire.Types.{Registers}
use tp_2023_1c_kernel_flow.Wire.Bytes.{copy_block}

-- A register, as the pointer to its block.
pub data Registro : Type 0 where
  r_ax r_bx r_cx r_dx r_eax r_ebx r_ecx r_edx r_rax r_rbx r_rcx r_rdx : Registro

-- `strcmp` of a text against another is zero: they agree up to the NUL.
unfoldable pub is_text : List ℕ → List ℕ → Bool
is_text [] t = false
is_text (x ∷ xs) [] = false
is_text (x ∷ xs) (y ∷ ys) =
    let rest = is_text xs ys in if x == y then (if x == 0 then true else rest) else false

-- The characters A, B, C, D, E, R and X.
abbrev name2 : ℕ → List ℕ
name2 c = c ∷ 88 ∷ 0 ∷ []

abbrev name3 : ℕ → ℕ → List ℕ
name3 d c = d ∷ c ∷ 88 ∷ 0 ∷ []

-- NULL is `none`.
unfoldable pub get_register : List ℕ → Option Registro
get_register name =
    if is_text name (name2 65)
    then some r_ax
    else if is_text name (name2 66)
    then some r_bx
    else if is_text name (name2 67)
    then some r_cx
    else if is_text name (name2 68)
    then some r_dx
    else if is_text name (name3 69 65)
    then some r_eax
    else if is_text name (name3 69 66)
    then some r_ebx
    else if is_text name (name3 69 67)
    then some r_ecx
    else if is_text name (name3 69 68)
    then some r_edx
    else if is_text name (name3 82 65)
    then some r_rax
    else if is_text name (name3 82 66)
    then some r_rbx
    else if is_text name (name3 82 67)
    then some r_rcx
    else if is_text name (name3 82 68)
    then some r_rdx
    else none

-- -1 is `none`.
unfoldable pub get_sizeof_register : List ℕ → Option ℕ
get_sizeof_register name =
    if is_text name (name2 65)
      || (is_text name (name2 66) || (is_text name (name2 67) || is_text name (name2 68)))
    then some 4
    else if is_text name (name3 69 65)
        || (is_text name (name3 69 66)
            || (is_text name (name3 69 67) || is_text name (name3 69 68)))
    then some 8
    else if is_text name (name3 82 65)
        || (is_text name (name3 82 66)
            || (is_text name (name3 82 67) || is_text name (name3 82 68)))
    then some 16
    else none

-- The size of the block behind a pointer.
unfoldable pub block_size : Registro → ℕ
block_size r_ax = 4
block_size r_bx = 4
block_size r_cx = 4
block_size r_dx = 4
block_size r_eax = 8
block_size r_ebx = 8
block_size r_ecx = 8
block_size r_edx = 8
block_size _ = 16

unfoldable pub value_of : Registro → Registers → List ℕ
value_of r_ax r = r.ax
value_of r_bx r = r.bx
value_of r_cx r = r.cx
value_of r_dx r = r.dx
value_of r_eax r = r.eax
value_of r_ebx r = r.ebx
value_of r_ecx r = r.ecx
value_of r_edx r = r.edx
value_of r_rax r = r.rax
value_of r_rbx r = r.rbx
value_of r_rcx r = r.rcx
value_of r_rdx r = r.rdx

unfoldable pub with_value : Registro → List ℕ → Registers → Registers
with_value r_ax v r = record r { ax = v }
with_value r_bx v r = record r { bx = v }
with_value r_cx v r = record r { cx = v }
with_value r_dx v r = record r { dx = v }
with_value r_eax v r = record r { eax = v }
with_value r_ebx v r = record r { ebx = v }
with_value r_ecx v r = record r { ecx = v }
with_value r_edx v r = record r { edx = v }
with_value r_rax v r = record r { rax = v }
with_value r_rbx v r = record r { rbx = v }
with_value r_rcx v r = record r { rcx = v }
with_value r_rdx v r = record r { rdx = v }

-- `memcpy` of n bytes into the block of a register; past the end of the block it is a fault.
unfoldable pub copy_into_register : Registro → ℕ → List ℕ → Registers → Option Registers
copy_into_register which n bytes r =
    if leb n (block_size which)
    then Option.map (λ copied. with_value which (copied ++ drop n (value_of which r)) r)
        (copy_block n bytes)
    else none
