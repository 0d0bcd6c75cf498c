-- ===== src/Wire/Instruccion/Lists.antt =====
-- libs/src/package.c: the layout of a list of instructions, and reading it back.
use tp_2023_1c_kernel_flow.Base.{
  ℕ, zero, suc, ◌+◌, ◌<◌, ◌≤◌, ◌≡◌, refl, some, List, [], ◌∷◌, ◌++◌, append_assoc, arith, length,
  length-append, lt→ltb, le→not-ltb,
}
use tp_2023_1c_kernel_flow.Wire.Bytes.{packed, u32, u32_max, Buffer, copy_block_self}
use tp_2023_1c_kernel_flow.Wire.Types.{Instruccion}
use tp_2023_1c_kernel_flow.Wire.Instruccion.{
  lista_size_from, lista_stream, t_lista_instrucciones_create_buffer, lista_from_buffer,
  t_lista_instrucciones_create_from_buffer,
}
use tp_2023_1c_kernel_flow.Wire.Instruccion.RoundTrip.{
  IsWellFormed, layout_instruccion, length-layout, instruccion_create_buffer_lem,
  instruccion_create_from_buffer_lem,
}

abbrev pub AllWellFormed : List Instruccion → Type 0
AllWellFormed [] = Unit
AllWellFormed (x ∷ xs) = IsWellFormed x × AllWellFormed xs

abbrev pub layout_lista : List Instruccion → List ℕ
layout_lista [] = []
layout_lista (x ∷ xs) = layout_instruccion x ++ layout_lista xs

-- The size that the first loop adds up.
lista_size_lem :
    (xs : List Instruccion) (total : ℕ)
    → AllWellFormed xs
    → total + length (layout_lista xs) < u32_max
    → lista_size_from total xs ≡ some (total + length (layout_lista xs))
unfolding lista_size_from
lista_size_lem [] total w h = ground arith
lista_size_lem (x ∷ xs) total w h =
    let both = length-append (layout_instruccion x) (layout_lista xs) in
    let e : u32 (total + length (layout_instruccion x)) ≡ total + length (layout_instruccion x) =
      omega arith in
    rw
      (
        instruccion_create_buffer_lem x w.0,
        e,
        lista_size_lem xs (total + length (layout_instruccion x)) w.1 (omega arith),
      )
      (ground arith)

lista_stream_lem :
    (xs : List Instruccion) → AllWellFormed xs → lista_stream xs ≡ some (layout_lista xs)
unfolding lista_stream
lista_stream_lem [] w = refl
lista_stream_lem (x ∷ xs) w = rw (
  instruccion_create_buffer_lem x w.0,
  copy_block_self (layout_instruccion x),
  lista_stream_lem xs w.1,
)

pub lista_create_buffer_lem :
    (xs : List Instruccion)
    → AllWellFormed xs
    → length (layout_lista xs) < u32_max
    → t_lista_instrucciones_create_buffer xs ≡ some (packed (layout_lista xs))
unfolding t_lista_instrucciones_create_buffer
lista_create_buffer_lem xs w h =
    rw (lista_size_lem xs 0 w (omega arith), lista_stream_lem xs w) (ground arith)

length-le-layout : (xs : List Instruccion) → AllWellFormed xs → length xs ≤ length (layout_lista xs)
length-le-layout [] w = omega arith
length-le-layout (x ∷ xs) w =
    let both = length-append (layout_instruccion x) (layout_lista xs) in
    omega (arith, length-layout x w.0, length-le-layout xs w.1)

lista_from_buffer_lem :
    (xs : List Instruccion) (before : List ℕ) (fuel size : ℕ)
    → AllWellFormed xs
    → length before + length (layout_lista xs) ≡ size
    → size < u32_max
    → length xs < fuel
    → lista_from_buffer fuel
        (record { size = size; stream = before ++ layout_lista xs })
        (length before)
      ≡ some xs
unfolding lista_from_buffer
lista_from_buffer_lem xs before zero size w e h enough = elim enough [ ]
lista_from_buffer_lem [] before (suc fuel) size w e h enough =
    rw (le→not-ltb (length before) size (omega arith))
lista_from_buffer_lem (x ∷ xs) before (suc fuel) size w e h enough =
    let bytes = layout_instruccion x in
    let both = length-append bytes (layout_lista xs) in
    let joined = length-append before bytes in
    let ih =
      lista_from_buffer_lem xs (before ++ bytes) fuel size w.1 (omega arith) h (omega arith) in
    let tail : lista_from_buffer fuel
          (record { size = size; stream = before ++ (bytes ++ layout_lista xs) })
          (length before + length bytes)
        ≡ some xs =
      rw (append_assoc before bytes (layout_lista xs), joined) at ih in
    rw (
      lt→ltb (length before) size (omega (arith, length-layout x w.0)),
      instruccion_create_from_buffer_lem x size before (layout_lista xs) w.0 (omega arith),
      tail,
    )

pub lista_create_from_buffer_lem :
    (xs : List Instruccion)
    → AllWellFormed xs
    → length (layout_lista xs) < u32_max
    → t_lista_instrucciones_create_from_buffer (packed (layout_lista xs)) ≡ some xs
unfolding t_lista_instrucciones_create_from_buffer
lista_create_from_buffer_lem xs w h =
    lista_from_buffer_lem xs [] _ _ w (omega arith) h (omega (arith, length-le-layout xs w))

-- A list of well-formed instructions of less than 2^32 bytes in all is encoded, in a buffer that is
-- filled exactly, and the decoder ends on that buffer with the same list.
pub lista_instrucciones_round_trip :
    (xs : List Instruccion)
    → AllWellFormed xs
    → length (layout_lista xs) < u32_max
    → (b : Buffer) × (t_lista_instrucciones_create_buffer xs ≡ some b)
      × (b.size ≡ length b.stream)
      × (t_lista_instrucciones_create_from_buffer b ≡ some xs)
lista_instrucciones_round_trip xs w h = (
  packed (layout_lista xs),
  lista_create_buffer_lem xs w h,
  refl,
  lista_create_from_buffer_lem xs w h,
)
