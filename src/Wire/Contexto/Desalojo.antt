-- ===== src/Wire/Contexto/Desalojo.antt =====
-- libs/src/package.c: the layout of the context that leaves the CPU, and reading it back.
use tp_2023_1c_kernel_flow.Base.{
  ℕ, ◌+◌, ◌*◌, ◌<◌, ◌≡◌, refl, some, List, ◌++◌, arith, length, length-append, subst,
}
use tp_2023_1c_kernel_flow.Wire.Bytes.{
  packed, u32, u32_max, Buffer, Reads, Reads-bind, Reads-last, Reads-all, Reads-nil, lift-Reads,
  u32_bytes, read_u32-Reads, read_block-Reads, copy_block_self, length-u32_bytes,
}
use tp_2023_1c_kernel_flow.Wire.Types.{PcontextoDesalojo, status_code_number}
use tp_2023_1c_kernel_flow.Wire.Instruccion.RoundTrip.{
  IsWellFormed, layout_instruccion, instruccion_create_buffer_lem, instruccion_whole,
}
use tp_2023_1c_kernel_flow.Wire.Instruccion.Lists.{
  AllWellFormed, layout_lista, lista_create_buffer_lem, lista_create_from_buffer_lem,
}
use tp_2023_1c_kernel_flow.Wire.Messages.RoundTrip.{CodeFits}
use tp_2023_1c_kernel_flow.Wire.Contexto.{
  t_pcontexto_desalojo_create_buffer, read_pcontexto_desalojo,
  t_pcontexto_desalojo_create_from_buffer,
}
use tp_2023_1c_kernel_flow.Wire.Contexto.RoundTrip.{
  RegistersFit, layout_registers, write_registers_lem, length-layout_registers,
  read_registers-Reads,
}

abbrev pub layout_desalojo : PcontextoDesalojo → List ℕ
layout_desalojo c =
    u32_bytes c.pid
    ++ (u32_bytes c.program_counter
        ++ (u32_bytes (status_code_number c.status_code)
            ++ (layout_registers c.registers
                ++ (u32_bytes (length (layout_instruccion c.motivo_desalojo))
                    ++ (layout_instruccion c.motivo_desalojo
                        ++ (u32_bytes (length (layout_lista c.instructions))
                            ++ layout_lista c.instructions))))))

pub record DesalojoFits (c : PcontextoDesalojo) : Type 0 where
  pub pid_fits : c.pid < u32_max
  pub program_counter_fits : c.program_counter < u32_max
  pub status_fits : CodeFits c.status_code
  pub registers_fit : RegistersFit c.registers
  pub motivo_fits : IsWellFormed c.motivo_desalojo
  pub instructions_fit : AllWellFormed c.instructions
  pub total_fits :
      132 + length (layout_lista c.instructions) + length (layout_instruccion c.motivo_desalojo)
      < u32_max

frame_length :
    (a b d n m : ℕ) (r xs ys : List ℕ)
    → length r ≡ 112
    → length (
        u32_bytes a
        ++ (u32_bytes b ++ (u32_bytes d ++ (r ++ (u32_bytes n ++ (xs ++ (u32_bytes m ++ ys)))))))
      ≡ 132 + length ys + length xs
frame_length a b d n m r xs ys h = simp (length-append, length-u32_bytes, h) (omega arith)

module _ (c : PcontextoDesalojo) (f : DesalojoFits c) where
  parts_fit :
      (length (layout_lista c.instructions) < u32_max)
      × (length (layout_instruccion c.motivo_desalojo) < u32_max)
  parts_fit = omega (arith, f.total_fits)

  length-layout_desalojo :
      length (layout_desalojo c)
      ≡ 132 + length (layout_lista c.instructions) + length (layout_instruccion c.motivo_desalojo)
  length-layout_desalojo =
      frame_length c.pid c.program_counter (status_code_number c.status_code) _ _
        (layout_registers c.registers) (layout_instruccion c.motivo_desalojo)
        (layout_lista c.instructions) (length-layout_registers c.registers f.registers_fit)

  desalojo_create_buffer_lem :
      t_pcontexto_desalojo_create_buffer c ≡ some (packed (layout_desalojo c))
  unfolding t_pcontexto_desalojo_create_buffer
  desalojo_create_buffer_lem =
      let instructions = layout_lista c.instructions in
      let motivo = layout_instruccion c.motivo_desalojo in
      let sized : u32 (4 * 5 + length instructions + length motivo + 4 * 4 + 8 * 4 + 16 * 4)
          ≡ length (layout_desalojo c) =
        omega (arith, length-layout_desalojo, f.total_fits) in
      rw (
        lista_create_buffer_lem c.instructions f.instructions_fit parts_fit.0,
        instruccion_create_buffer_lem c.motivo_desalojo f.motivo_fits,
        write_registers_lem c.registers f.registers_fit,
        copy_block_self motivo,
        copy_block_self instructions,
        sized,
      )

  read_desalojo-Reads : Reads read_pcontexto_desalojo (layout_desalojo c) c
  unfolding read_pcontexto_desalojo
  read_desalojo-Reads =
      subst
        (λ code.
          Reads read_pcontexto_desalojo (layout_desalojo c) (record c { status_code = code }))
        f.status_fits.canonical
        (Reads-bind _ (read_u32-Reads c.pid f.pid_fits) (
          Reads-bind _ (read_u32-Reads c.program_counter f.program_counter_fits) (
            Reads-bind _ (read_u32-Reads _ f.status_fits.fits) (
              Reads-bind _ (read_registers-Reads c.registers f.registers_fit) (
                Reads-bind _ (read_u32-Reads _ parts_fit.1) (
                  Reads-bind _ (read_block-Reads _ (layout_instruccion c.motivo_desalojo) refl) (
                    Reads-bind _ (lift-Reads (instruccion_whole c.motivo_desalojo f.motivo_fits)) (
                      Reads-bind _ (read_u32-Reads _ parts_fit.0) (
                        Reads-nil _ (
                          Reads-bind _ (read_block-Reads _ (layout_lista c.instructions) refl) (
                            Reads-last _ (
                              lift-Reads (
                                lista_create_from_buffer_lem c.instructions f.instructions_fit
                                  parts_fit.0)))))))))))))

-- An evicted context whose numbers fit in a uint32_t, whose registers have their sizes and whose
-- parts are well formed is encoded in a buffer that is filled exactly, and decoded from it to the
-- same context, with its instruction and its status code.
pub pcontexto_desalojo_round_trip :
    (c : PcontextoDesalojo)
    → DesalojoFits c
    → (b : Buffer) × (t_pcontexto_desalojo_create_buffer c ≡ some b)
      × (b.size ≡ length b.stream)
      × (t_pcontexto_desalojo_create_from_buffer b ≡ some c)
unfolding t_pcontexto_desalojo_create_from_buffer
pcontexto_desalojo_round_trip c f = (
  packed (layout_desalojo c),
  desalojo_create_buffer_lem c f,
  refl,
  rw (Reads-all (read_desalojo-Reads c f)),
)
