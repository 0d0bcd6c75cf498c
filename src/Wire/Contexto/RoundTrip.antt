-- ===== src/Wire/Contexto/RoundTrip.antt =====
-- libs/src/package.c: the layout of the process contexts, and reading them back.
use tp_2023_1c_kernel_flow.Base.{
  ℕ, ◌+◌, ◌*◌, ◌<◌, ◌≡◌, refl, some, List, [], ◌++◌, arith, length, length-append, subst,
}
use tp_2023_1c_kernel_flow.Wire.Bytes.{
  packed, u32, u32_max, Buffer, Reads, Reads-pure, Reads-bind, Reads-last, Reads-all, Reads-nil,
  lift-Reads, u32_bytes, read_u32-Reads, read_block-Reads, copy_block, copy_block_self,
  length-u32_bytes,
}
use tp_2023_1c_kernel_flow.Wire.Types.{Registers, SegmentsTable, Pcontexto}
use tp_2023_1c_kernel_flow.Wire.Instruccion.Lists.{
  AllWellFormed, layout_lista, lista_create_buffer_lem, lista_create_from_buffer_lem,
}
use tp_2023_1c_kernel_flow.Wire.Segments.RoundTrip.{
  TableFits, layout_table, segments_table_create_buffer_lem, segments_table_whole,
}
use tp_2023_1c_kernel_flow.Wire.Contexto.{
  copy_blocks, write_registers, read_registers, t_pcontexto_create_buffer, read_pcontexto,
  t_pcontexto_create_from_buffer,
}

-- The blocks that `registers_create` allocates.
pub record RegistersFit (r : Registers) : Type 0 where
  pub ax_four : length r.ax ≡ 4
  pub bx_four : length r.bx ≡ 4
  pub cx_four : length r.cx ≡ 4
  pub dx_four : length r.dx ≡ 4
  pub eax_eight : length r.eax ≡ 8
  pub ebx_eight : length r.ebx ≡ 8
  pub ecx_eight : length r.ecx ≡ 8
  pub edx_eight : length r.edx ≡ 8
  pub rax_sixteen : length r.rax ≡ 16
  pub rbx_sixteen : length r.rbx ≡ 16
  pub rcx_sixteen : length r.rcx ≡ 16
  pub rdx_sixteen : length r.rdx ≡ 16

abbrev pub layout_registers : Registers → List ℕ
layout_registers r =
    r.ax
    ++ (r.bx
        ++ (r.cx
            ++ (r.dx
                ++ (r.eax
                    ++ (r.ebx
                        ++ (r.ecx ++ (r.edx ++ (r.rax ++ (r.rbx ++ (r.rcx ++ (r.rdx ++ [])))))))))))

copied : {n : ℕ} {block : List ℕ} → length block ≡ n → copy_block n block ≡ some block
copied {block = block} h = subst (λ n. copy_block n block ≡ some block) h (copy_block_self block)

module _ (r : Registers) (f : RegistersFit r) where
  pub write_registers_lem : write_registers r ≡ some (layout_registers r)
  unfolding write_registers copy_blocks
  write_registers_lem =
      rw (copied f.ax_four, copied f.bx_four, copied f.cx_four, copied f.dx_four)
        (rw (copied f.eax_eight, copied f.ebx_eight, copied f.ecx_eight, copied f.edx_eight)
          (rw (
            copied f.rax_sixteen,
            copied f.rbx_sixteen,
            copied f.rcx_sixteen,
            copied f.rdx_sixteen,
          )))

  pub length-layout_registers : length (layout_registers r) ≡ 112
  length-layout_registers = simp (
    length-append, f.ax_four, f.bx_four, f.cx_four, f.dx_four, f.eax_eight, f.ebx_eight,
    f.ecx_eight, f.edx_eight, f.rax_sixteen, f.rbx_sixteen, f.rcx_sixteen, f.rdx_sixteen,
  )

  pub read_registers-Reads : Reads read_registers (layout_registers r) r
  unfolding read_registers
  read_registers-Reads = Reads-bind _ (read_block-Reads 4 r.ax f.ax_four) (
      Reads-bind _ (read_block-Reads 4 r.bx f.bx_four) (
        Reads-bind _ (read_block-Reads 4 r.cx f.cx_four) (
          Reads-bind _ (read_block-Reads 4 r.dx f.dx_four) (
            Reads-bind _ (read_block-Reads 8 r.eax f.eax_eight) (
              Reads-bind _ (read_block-Reads 8 r.ebx f.ebx_eight) (
                Reads-bind _ (read_block-Reads 8 r.ecx f.ecx_eight) (
                  Reads-bind _ (read_block-Reads 8 r.edx f.edx_eight) (
                    Reads-bind _ (read_block-Reads 16 r.rax f.rax_sixteen) (
                      Reads-bind _ (read_block-Reads 16 r.rbx f.rbx_sixteen) (
                        Reads-bind _ (read_block-Reads 16 r.rcx f.rcx_sixteen) (
                          Reads-bind _ (read_block-Reads 16 r.rdx f.rdx_sixteen)
                            (Reads-pure _))))))))))))

frame_length :
    (a b n m : ℕ) (r xs ys : List ℕ)
    → length r ≡ 112
    → length (u32_bytes a ++ (u32_bytes b ++ (r ++ (u32_bytes n ++ (u32_bytes m ++ (xs ++ ys))))))
      ≡ 128 + length xs + length ys
frame_length a b n m r xs ys h = simp (length-append, length-u32_bytes, h) (omega arith)

-- The table that a context carries.
abbrev pub segments_of : Pcontexto → SegmentsTable
segments_of c = record { pid = c.pid; segment_list = c.segments }

abbrev pub layout_pcontexto : Pcontexto → List ℕ
layout_pcontexto c =
    u32_bytes c.pid
    ++ (u32_bytes c.program_counter
        ++ (layout_registers c.registers
            ++ (u32_bytes (length (layout_lista c.instructions))
                ++ (u32_bytes (length (layout_table (segments_of c)))
                    ++ (layout_lista c.instructions ++ layout_table (segments_of c))))))

pub record PcontextoFits (c : Pcontexto) : Type 0 where
  pub program_counter_fits : c.program_counter < u32_max
  pub registers_fit : RegistersFit c.registers
  pub instructions_fit : AllWellFormed c.instructions
  pub segments_fit : TableFits (segments_of c)
  pub total_fits :
      128 + length (layout_lista c.instructions) + length (layout_table (segments_of c)) < u32_max

module _ (c : Pcontexto) (f : PcontextoFits c) where
  parts_fit :
      (length (layout_lista c.instructions) < u32_max)
      × (length (layout_table (segments_of c)) < u32_max)
  parts_fit = omega (arith, f.total_fits)

  length-layout_pcontexto :
      length (layout_pcontexto c)
      ≡ 128 + length (layout_lista c.instructions) + length (layout_table (segments_of c))
  length-layout_pcontexto =
      frame_length c.pid c.program_counter _ _ (layout_registers c.registers)
        (layout_lista c.instructions) (layout_table (segments_of c))
        (length-layout_registers c.registers f.registers_fit)

  pcontexto_create_buffer_lem : t_pcontexto_create_buffer c ≡ some (packed (layout_pcontexto c))
  unfolding t_pcontexto_create_buffer
  pcontexto_create_buffer_lem =
      let instructions = layout_lista c.instructions in
      let segments = layout_table (segments_of c) in
      let sized : u32 (4 * 4 + length instructions + length segments + 4 * 4 + 8 * 4 + 16 * 4)
          ≡ length (layout_pcontexto c) =
        omega (arith, length-layout_pcontexto, f.total_fits) in
      rw (
        lista_create_buffer_lem c.instructions f.instructions_fit parts_fit.0,
        write_registers_lem c.registers f.registers_fit,
        copy_block_self instructions,
        segments_table_create_buffer_lem (segments_of c) f.segments_fit,
        copy_block_self segments,
        sized,
      )

  read_pcontexto-Reads : Reads read_pcontexto (layout_pcontexto c) c
  unfolding read_pcontexto
  read_pcontexto-Reads = Reads-bind _ (read_u32-Reads c.pid f.segments_fit.pid_fits) (
      Reads-bind _ (read_u32-Reads c.program_counter f.program_counter_fits) (
        Reads-bind _ (read_registers-Reads c.registers f.registers_fit) (
          Reads-bind _ (read_u32-Reads _ parts_fit.0) (
            Reads-bind _ (read_u32-Reads _ parts_fit.1) (
              Reads-bind _ (read_block-Reads _ (layout_lista c.instructions) refl) (
                Reads-bind _
                  (lift-Reads
                    (lista_create_from_buffer_lem c.instructions f.instructions_fit parts_fit.0))
                  (Reads-nil _ (
                    Reads-bind _ (read_block-Reads _ (layout_table (segments_of c)) refl) (
                      Reads-last _
                        (lift-Reads (segments_table_whole (segments_of c) f.segments_fit)))))))))))

-- A context whose numbers fit in a uint32_t, whose registers have their sizes and whose parts are
-- well formed is encoded in a buffer that is filled exactly, and decoded from it to the same
-- context.
pub pcontexto_round_trip :
    (c : Pcontexto)
    → PcontextoFits c
    → (b : Buffer) × (t_pcontexto_create_buffer c ≡ some b)
      × (b.size ≡ length b.stream)
      × (t_pcontexto_create_from_buffer b ≡ some c)
unfolding t_pcontexto_create_from_buffer
pcontexto_round_trip c f = (
  packed (layout_pcontexto c),
  pcontexto_create_buffer_lem c f,
  refl,
  rw (Reads-all (read_pcontexto-Reads c f)),
)
