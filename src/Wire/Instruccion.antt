-- ===== src/Wire/Instruccion.antt =====
-- libs/src/package.c: t_instruccion and lists of it, into a buffer and out of one.
-- A loop over the four lengths or over the parameters is a recursion on the rounds left, in step
-- with the arrays; an index past the end of an array is undefined in C, and `none` here.
pub mod RoundTrip
pub mod Lists
use mathlib.Core.Option
use tp_2023_1c_kernel_flow.Base.{
  ℕ, zero, suc, ◌+◌, ◌*◌, Option, none, some, List, [], ◌∷◌, ◌++◌, bind, ltb, if◌then◌else◌, drop,
}
use tp_2023_1c_kernel_flow.Wire.Bytes.{
  u32, Buffer, Reader, pure, ◌>>=◌, u32_bytes, u32s_bytes, read_u32, read_u32s, read_block,
  copy_block,
}
use tp_2023_1c_kernel_flow.Wire.Types.{Instruccion, identificador_code, identificador_of}

-- The loop of `espacio_de_array_parametros`.
unfoldable pub espacio_from : ℕ → List ℕ → ℕ
espacio_from espacio [] = espacio
espacio_from espacio (l ∷ ls) = espacio_from (u32 (espacio + l)) ls

unfoldable pub espacio_de_array_parametros : Instruccion → ℕ
unfolding espacio_from
espacio_de_array_parametros x = espacio_from 0 x.p_length

-- The copies of the parameters, one after the other.
unfoldable pub write_parametros : ℕ → List ℕ → List (List ℕ) → Option (List ℕ)
write_parametros zero ls ps = some []
write_parametros (suc n) (l ∷ ls) (p ∷ ps) =
    bind (copy_block l p) λ bytes. Option.map (λ rest. bytes ++ rest) (write_parametros n ls ps)
write_parametros (suc n) _ _ = none

unfoldable pub t_instruccion_create_buffer : Instruccion → Option Buffer
t_instruccion_create_buffer x =
    Option.map
      (λ params. record {
        size = u32 (4 + 4 + espacio_de_array_parametros x + 4 * 4);
        stream =
            u32_bytes (identificador_code x.identificador)
            ++ (u32_bytes x.cant_parametros ++ (u32s_bytes x.p_length ++ params));
      })
      (write_parametros x.cant_parametros x.p_length x.parametros)

unfoldable pub read_parametros : ℕ → List ℕ → Reader (List (List ℕ))
read_parametros zero ls = pure []
read_parametros (suc n) [] = λ _. none
read_parametros (suc n) (l ∷ ls) =
    read_block l >>= λ p. read_parametros n ls >>= λ ps. pure (p ∷ ps)

-- The reads of `t_instruccion_create_from_buffer`, from the stream at its offset.
unfoldable pub read_instruccion : Reader Instruccion
read_instruccion = do
  id ← read_u32
  cant ← read_u32
  lengths ← read_u32s 4
  params ← read_parametros cant lengths
  pure (record {
    identificador = identificador_of id;
    cant_parametros = cant;
    p_length = lengths;
    parametros = params;
  })

-- What the loop over the parameters adds to `offset_aux`.
unfoldable pub offset_aux_from : ℕ → ℕ → List ℕ → ℕ
offset_aux_from offset zero ls = offset
offset_aux_from offset (suc n) [] = offset
offset_aux_from offset (suc n) (l ∷ ls) = offset_aux_from (u32 (offset + l)) n ls

unfoldable pub t_instruccion_create_from_buffer : Buffer → ℕ → Option (Instruccion × ℕ)
t_instruccion_create_from_buffer b offset =
    Option.map
      (λ ((x, _) : Instruccion × List ℕ).
        (x, u32 (offset + offset_aux_from (4 * 2 + 4 * 4) x.cant_parametros x.p_length)))
      (read_instruccion (drop offset b.stream))

-- The first loop of `t_lista_instrucciones_create_buffer` adds up the sizes.
unfoldable pub lista_size_from : ℕ → List Instruccion → Option ℕ
lista_size_from total [] = some total
lista_size_from total (x ∷ xs) =
    bind (t_instruccion_create_buffer x) λ b. lista_size_from (u32 (total + b.size)) xs

-- The second loop copies `size` bytes of each buffer.
unfoldable pub lista_stream : List Instruccion → Option (List ℕ)
lista_stream [] = some []
lista_stream (x ∷ xs) = bind (t_instruccion_create_buffer x) λ b.
    bind (copy_block b.size b.stream) λ bytes. Option.map (λ rest. bytes ++ rest) (lista_stream xs)

unfoldable pub t_lista_instrucciones_create_buffer : List Instruccion → Option Buffer
t_lista_instrucciones_create_buffer xs =
    bind (lista_size_from 0 xs)
      λ total. Option.map (λ bytes. record { size = total; stream = bytes }) (lista_stream xs)

-- `while (offset < buffer->size)`, with fuel: `none` also where the fuel runs out.
unfoldable pub lista_from_buffer : ℕ → Buffer → ℕ → Option (List Instruccion)
lista_from_buffer zero b offset = none
lista_from_buffer (suc fuel) b offset =
    let rest = bind (t_instruccion_create_from_buffer b offset) λ ((x, offset') : Instruccion × ℕ).
      Option.map (λ xs. x ∷ xs) (lista_from_buffer fuel b offset') in
    if ltb offset b.size then rest else some []

-- Each instruction takes 24 bytes or more, so the size bounds the rounds.
unfoldable pub t_lista_instrucciones_create_from_buffer : Buffer → Option (List Instruccion)
t_lista_instrucciones_create_from_buffer b = lista_from_buffer (suc b.size) b 0
