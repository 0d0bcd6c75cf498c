-- ===== src/Wire/Instruccion/RoundTrip.antt =====
-- libs/src/package.c: the layout of one instruction in a message, and reading back what was written.
use tp_2023_1c_kernel_flow.Base.{
  ℕ, zero, suc, ◌+◌, ◌-◌, ◌*◌, ◌<◌, ◌≤◌, ◌≡◌, refl, subst, some, List, [], ◌∷◌, ◌++◌, append-nil,
  zero-add, arith, length, length-append, length-map, length-replicate, map, flatten, replicate,
  drop-append,
}
use tp_2023_1c_kernel_flow.Wire.Bytes.{
  packed, u32, u32_max, Reads, Reads-pure, Reads-bind, Reads-last, u32_bytes, u32s_bytes, read_u32s,
  read_u32-Reads, read_block-Reads, copy_block_self, AllBelow, read_u32s-Reads, length-u32_bytes,
  length-u32s_bytes,
}
use tp_2023_1c_kernel_flow.Wire.Types.{Instruccion, identificador_code, identificador_of}
use tp_2023_1c_kernel_flow.Wire.Instruccion.{
  espacio_from, espacio_de_array_parametros, write_parametros, t_instruccion_create_buffer,
  read_parametros, read_instruccion, offset_aux_from, t_instruccion_create_from_buffer,
}

-- An instruction as `new_instruction` builds it: the lengths of its parameters, then zeros.
pub record IsWellFormed (x : Instruccion) : Type 0 where
  pub canonical : identificador_of (identificador_code x.identificador) ≡ x.identificador
  pub code_fits : identificador_code x.identificador < u32_max
  pub counted : x.cant_parametros ≡ length x.parametros
  pub at_most_four : length x.parametros ≤ 4
  pub measured : x.p_length ≡ map length x.parametros ++ replicate (4 - length x.parametros) 0
  pub fits : 24 + length (flatten x.parametros) < u32_max

-- The layout of an instruction: its number, the count, the four lengths, the parameters.
abbrev pub layout_instruccion : Instruccion → List ℕ
layout_instruccion x =
    u32_bytes (identificador_code x.identificador)
    ++ (u32_bytes x.cant_parametros ++ (u32s_bytes x.p_length ++ flatten x.parametros))

write_parametros_all :
    (ps : List (List ℕ)) (pad : List ℕ)
    → write_parametros (length ps) (map length ps ++ pad) ps ≡ some (flatten ps)
unfolding write_parametros flatten
write_parametros_all [] pad = refl
write_parametros_all (p ∷ ps) pad = rw (copy_block_self p) (rw (write_parametros_all ps pad))

read_parametros-Reads :
    (ps : List (List ℕ)) (pad : List ℕ)
    → Reads (read_parametros (length ps) (map length ps ++ pad)) (flatten ps) ps
unfolding read_parametros flatten
read_parametros-Reads [] pad = Reads-pure []
read_parametros-Reads (p ∷ ps) pad =
    Reads-bind _ (read_block-Reads (length p) p refl) (Reads-last _ (read_parametros-Reads ps pad))

espacio_zeros : (k acc : ℕ) → acc < u32_max → espacio_from acc (replicate k 0) ≡ acc
unfolding espacio_from
espacio_zeros zero acc h = refl
espacio_zeros (suc k) acc h =
    let e : u32 (acc + 0) ≡ acc = omega arith in rw (e, espacio_from) (espacio_zeros k acc h)

espacio_all :
    (ps : List (List ℕ)) (k acc : ℕ)
    → acc + length (flatten ps) < u32_max
    → espacio_from acc (map length ps ++ replicate k 0) ≡ acc + length (flatten ps)
unfolding espacio_from flatten
espacio_all [] k acc h = omega (arith, espacio_zeros k acc)
espacio_all (p ∷ ps) k acc h =
    let both = length-append p (flatten ps) in
    let e : u32 (acc + length p) ≡ acc + length p = omega arith in
    rw (e, espacio_from) (omega (arith, espacio_all ps k (acc + length p) (omega arith)))

offset_aux_all :
    (ps : List (List ℕ)) (pad : List ℕ) (acc : ℕ)
    → acc + length (flatten ps) < u32_max
    → offset_aux_from acc (length ps) (map length ps ++ pad) ≡ acc + length (flatten ps)
unfolding offset_aux_from flatten
offset_aux_all [] pad acc h = omega arith
offset_aux_all (p ∷ ps) pad acc h =
    let both = length-append p (flatten ps) in
    let e : u32 (acc + length p) ≡ acc + length p = omega arith in
    rw (e, offset_aux_from) (omega (arith, offset_aux_all ps pad (acc + length p) (omega arith)))

AllBelow-append : (n : ℕ) (xs ys : List ℕ) → AllBelow n xs → AllBelow n ys → AllBelow n (xs ++ ys)
AllBelow-append n [] ys h k = k
AllBelow-append n (x ∷ xs) ys h k = (h.0, AllBelow-append n xs ys h.1 k)

AllBelow-lengths :
    (ps : List (List ℕ)) → length (flatten ps) < u32_max → AllBelow u32_max (map length ps)
unfolding flatten
AllBelow-lengths [] h = tt
AllBelow-lengths (p ∷ ps) h =
    let both = length-append p (flatten ps) in (omega arith, AllBelow-lengths ps (omega arith))

AllBelow-replicate : (k : ℕ) → AllBelow u32_max (replicate k 0)
AllBelow-replicate zero = tt
AllBelow-replicate (suc k) = (omega arith, AllBelow-replicate k)

module _ (x : Instruccion) (w : IsWellFormed x) where
  espacio_lem : espacio_de_array_parametros x ≡ length (flatten x.parametros)
  unfolding espacio_de_array_parametros
  espacio_lem =
      rw w.measured (
        omega (arith, espacio_all x.parametros (4 - length x.parametros) 0 (omega (arith, w.fits))))

  length-p_length : length x.p_length ≡ 4
  length-p_length =
      rw w.measured
        (simp (length-append, length-map, length-replicate) (omega (arith, w.at_most_four)))

  pub length-layout : length (layout_instruccion x) ≡ 24 + length (flatten x.parametros)
  length-layout =
      simp (length-append, length-u32_bytes, length-u32s_bytes, length-p_length) (omega arith)

  write_parametros_lem :
      write_parametros x.cant_parametros x.p_length x.parametros ≡ some (flatten x.parametros)
  write_parametros_lem = rw (w.counted, w.measured) (write_parametros_all x.parametros _)

  -- The buffer of an instruction is filled exactly, with its layout.
  pub instruccion_create_buffer_lem :
      t_instruccion_create_buffer x ≡ some (packed (layout_instruccion x))
  unfolding t_instruccion_create_buffer
  instruccion_create_buffer_lem =
      let sized : u32 (4 + 4 + espacio_de_array_parametros x + 4 * 4)
          ≡ length (layout_instruccion x) =
        omega (arith, length-layout, espacio_lem, w.fits) in
      rw (write_parametros_lem, sized)

  p_length_fits : AllBelow u32_max x.p_length
  p_length_fits = rw w.measured (
      AllBelow-append u32_max (map length x.parametros) _
        (AllBelow-lengths x.parametros (omega (arith, w.fits)))
        (AllBelow-replicate (4 - length x.parametros)))

  read_parametros_lem :
      Reads (read_parametros x.cant_parametros x.p_length) (flatten x.parametros) x.parametros
  read_parametros_lem = rw (w.counted, w.measured) (read_parametros-Reads x.parametros _)

  read_lengths_lem : Reads (read_u32s 4) (u32s_bytes x.p_length) x.p_length
  read_lengths_lem =
      subst (λ n. Reads (read_u32s n) (u32s_bytes x.p_length) x.p_length) length-p_length
        (read_u32s-Reads x.p_length p_length_fits)

  pub offset_aux_lem :
      offset_aux_from (4 * 2 + 4 * 4) x.cant_parametros x.p_length
      ≡ 24 + length (flatten x.parametros)
  offset_aux_lem = rw (w.counted, w.measured) (offset_aux_all x.parametros _ 24 w.fits)

  -- The reads take the layout off the front of a stream and rebuild the instruction.
  pub read_instruccion-Reads : Reads read_instruccion (layout_instruccion x) x
  unfolding read_instruccion
  read_instruccion-Reads =
      subst (λ i. Reads read_instruccion (layout_instruccion x) (record x { identificador = i }))
        w.canonical
        (Reads-bind _ (read_u32-Reads (identificador_code x.identificador) w.code_fits) (
          Reads-bind _ (read_u32-Reads x.cant_parametros (omega (arith, w.counted, w.at_most_four)))
            (Reads-bind _ read_lengths_lem (Reads-last _ read_parametros_lem))))

-- Read back at its offset, between any two other pieces of a message.
pub instruccion_create_from_buffer_lem :
    (x : Instruccion) (size : ℕ) (before after : List ℕ)
    → IsWellFormed x
    → length before + length (layout_instruccion x) < u32_max
    → t_instruccion_create_from_buffer
        (record { size = size; stream = before ++ (layout_instruccion x ++ after) })
        (length before)
      ≡ some (x, length before + length (layout_instruccion x))
unfolding t_instruccion_create_from_buffer
instruccion_create_from_buffer_lem x size before after w h =
    let moved : u32 (length before + offset_aux_from (4 * 2 + 4 * 4) x.cant_parametros x.p_length)
        ≡ length before + length (layout_instruccion x) =
      omega (arith, offset_aux_lem x w, length-layout x w) in
    rw
      (drop-append before (layout_instruccion x ++ after), (read_instruccion-Reads x w).apply after)
      (rw moved)

pub instruccion_whole :
    (x : Instruccion)
    → IsWellFormed x
    → t_instruccion_create_from_buffer (packed (layout_instruccion x)) 0
      ≡ some (x, length (layout_instruccion x))
instruccion_whole x w =
    simp (append-nil, zero-add) at
      (instruccion_create_from_buffer_lem x (length (layout_instruccion x)) [] [] w
        (omega (arith, length-layout x w, w.fits)))
