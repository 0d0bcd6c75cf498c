-- ===== src/Wire/Duplicados.antt =====
-- libs/src/types_controllers.c: the constructors and the duplicators of the data that travels. A copy
-- has blocks of its own, and what is read of a block too short is a fault. `string_duplicate` is the
-- commons library's.
use mathlib.Core.Option
use tp_2023_1c_kernel_flow.Base.{
  ℕ, zero, suc, Option, none, some, List, [], ◌∷◌, bind, replicate, take, map,
}
use tp_2023_1c_kernel_flow.Wire.Types.{
  Instruccion, Registers, Segment, SegmentsTable, PidStatus, StatusCode,
}
use tp_2023_1c_kernel_flow.Wire.Bytes.{copy_block}

infixl 5 ◌>>=◌
abbrev ◌>>=◌ : {A B : Type 0} → Option A → (A → Option B) → Option B
x >>= f = bind x f

unfoldable pub pid_status_create : ℕ → StatusCode → PidStatus
pid_status_create pid status = record { pid = pid; status = status }

-- The character '0' of `zero`, so many times.
abbrev zeros : ℕ → List ℕ
zeros n = replicate n 48

unfoldable pub registers_create : Registers
registers_create = record {
  ax = zeros 4;
  bx = zeros 4;
  cx = zeros 4;
  dx = zeros 4;
  eax = zeros 8;
  ebx = zeros 8;
  ecx = zeros 8;
  edx = zeros 8;
  rax = zeros 16;
  rbx = zeros 16;
  rcx = zeros 16;
  rdx = zeros 16;
}

-- The whole of `to` is overwritten, so it is the result.
unfoldable pub registers_duplicate : Registers → Option Registers
registers_duplicate r = do
  ax ← copy_block 4 r.ax
  bx ← copy_block 4 r.bx
  cx ← copy_block 4 r.cx
  dx ← copy_block 4 r.dx
  eax ← copy_block 8 r.eax
  ebx ← copy_block 8 r.ebx
  ecx ← copy_block 8 r.ecx
  edx ← copy_block 8 r.edx
  rax ← copy_block 16 r.rax
  rbx ← copy_block 16 r.rbx
  rcx ← copy_block 16 r.rcx
  rdx ← copy_block 16 r.rdx
  some (record {
    ax = ax;
    bx = bx;
    cx = cx;
    dx = dx;
    eax = eax;
    ebx = ebx;
    ecx = ecx;
    edx = edx;
    rax = rax;
    rbx = rbx;
    rcx = rcx;
    rdx = rdx;
  })

unfoldable pub segment_duplicate : Segment → Segment
segment_duplicate s = record { id = s.id; base_address = s.base_address; size = s.size }

unfoldable pub segment_list_duplicate : SegmentsTable → List Segment
segment_list_duplicate table = map segment_duplicate table.segment_list

module _ (string_duplicate : List ℕ → List ℕ) where
  -- The first n of a list of strings; `list_get` past its end is NULL, which is followed.
  unfoldable pub duplicate_parametros : ℕ → List (List ℕ) → Option (List (List ℕ))
  duplicate_parametros zero parametros = some []
  duplicate_parametros (suc n) [] = none
  duplicate_parametros (suc n) (p ∷ ps) =
      Option.map (λ copies. string_duplicate p ∷ copies) (duplicate_parametros n ps)

  -- `p_length` has four elements.
  unfoldable pub instruccion_duplicate : Instruccion → Option Instruccion
  instruccion_duplicate x =
      Option.map
        (λ copies. record {
          identificador = x.identificador;
          cant_parametros = x.cant_parametros;
          parametros = copies;
          p_length = take 4 x.p_length;
        })
        (duplicate_parametros x.cant_parametros x.parametros)

  unfoldable pub lista_instrucciones_duplicate : List Instruccion → Option (List Instruccion)
  lista_instrucciones_duplicate [] = some []
  lista_instrucciones_duplicate (x ∷ xs) = do
    copy ← instruccion_duplicate x
    copies ← lista_instrucciones_duplicate xs
    some (copy ∷ copies)
