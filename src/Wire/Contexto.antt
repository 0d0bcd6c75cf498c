-- ===== src/Wire/Contexto.antt =====
-- libs/src/package.c: the process contexts, into a buffer and out of one.
pub mod RoundTrip
pub mod Desalojo
use mathlib.Core.Option
use tp_2023_1c_kernel_flow.Base.{ℕ, ◌+◌, ◌*◌, Option, none, some, List, [], ◌∷◌, ◌++◌, bind}
use tp_2023_1c_kernel_flow.Wire.Bytes.{
  u32, Buffer, Reader, pure, lift, ◌>>=◌, u32_bytes, read_u32, read_block, copy_block,
}
use tp_2023_1c_kernel_flow.Wire.Types.{
  Registers, Pcontexto, PcontextoDesalojo, status_code_number, status_code_of,
}
use tp_2023_1c_kernel_flow.Wire.Instruccion.{
  t_instruccion_create_buffer, t_instruccion_create_from_buffer,
  t_lista_instrucciones_create_buffer, t_lista_instrucciones_create_from_buffer,
}
use tp_2023_1c_kernel_flow.Wire.Segments.{
  t_segments_table_create_buffer, t_segments_table_create_from_buffer,
}

-- Copies of blocks, one after the other.
unfoldable pub copy_blocks : List (ℕ × List ℕ) → Option (List ℕ)
copy_blocks [] = some []
copy_blocks ((n, block) ∷ rest) =
    bind (copy_block n block) λ bytes. Option.map (λ more. bytes ++ more) (copy_blocks rest)

unfoldable pub write_registers : Registers → Option (List ℕ)
write_registers r = copy_blocks (
    (4, r.ax)
    ∷ (4, r.bx)
    ∷ (4, r.cx)
    ∷ (4, r.dx)
    ∷ (8, r.eax)
    ∷ (8, r.ebx)
    ∷ (8, r.ecx)
    ∷ (8, r.edx)
    ∷ (16, r.rax)
    ∷ (16, r.rbx)
    ∷ (16, r.rcx)
    ∷ (16, r.rdx)
    ∷ [])

unfoldable pub read_registers : Reader Registers
read_registers = do
  ax ← read_block 4
  bx ← read_block 4
  cx ← read_block 4
  dx ← read_block 4
  eax ← read_block 8
  ebx ← read_block 8
  ecx ← read_block 8
  edx ← read_block 8
  rax ← read_block 16
  rbx ← read_block 16
  rcx ← read_block 16
  rdx ← read_block 16
  pure (record {
    ax = ax;
    bx = bx;
    cx = cx;
    dx = dx;
    eax = eax;
    ebx = ebx;
    ecx = ecx;
    edx = edx;
    rax = rax;
    rbx = rbx;
    rcx = rcx;
    rdx = rdx;
  })

unfoldable pub t_pcontexto_create_buffer : Pcontexto → Option Buffer
t_pcontexto_create_buffer c =
    let bs = t_segments_table_create_buffer (record { pid = c.pid; segment_list = c.segments }) in
    bind (t_lista_instrucciones_create_buffer c.instructions) λ bi.
      bind (write_registers c.registers) λ registers.
        bind (copy_block bi.size bi.stream) λ instrucciones.
          Option.map
            (λ segmentos. record {
              size = u32 (4 * 4 + bi.size + bs.size + 4 * 4 + 8 * 4 + 16 * 4);
              stream =
                  u32_bytes c.pid
                  ++ (u32_bytes c.program_counter
                      ++ (registers
                          ++ (u32_bytes bi.size
                              ++ (u32_bytes bs.size ++ (instrucciones ++ segmentos)))));
            })
            (copy_block bs.size bs.stream)

unfoldable pub read_pcontexto : Reader Pcontexto
read_pcontexto = do
  pid ← read_u32
  pc ← read_u32
  registers ← read_registers
  size_instructions ← read_u32
  size_segments ← read_u32
  instruction_bytes ← read_block size_instructions
  instructions ← lift (
      t_lista_instrucciones_create_from_buffer
        (record { size = size_instructions; stream = instruction_bytes }))
  segment_bytes ← read_block size_segments
  (st, _) ← lift (
      t_segments_table_create_from_buffer (record { size = size_segments; stream = segment_bytes })
        0)
  pure (record {
    pid = pid;
    instructions = instructions;
    program_counter = pc;
    registers = registers;
    segments = st.segment_list;
  })

unfoldable pub t_pcontexto_create_from_buffer : Buffer → Option Pcontexto
t_pcontexto_create_from_buffer b =
    Option.map (λ ((c, _) : Pcontexto × List ℕ). c) (read_pcontexto b.stream)

unfoldable pub t_pcontexto_desalojo_create_buffer : PcontextoDesalojo → Option Buffer
t_pcontexto_desalojo_create_buffer c =
    bind (t_lista_instrucciones_create_buffer c.instructions) λ bi.
      bind (t_instruccion_create_buffer c.motivo_desalojo) λ bm.
        bind (write_registers c.registers) λ registers.
          bind (copy_block bm.size bm.stream) λ motivo.
            Option.map
              (λ instrucciones. record {
                size = u32 (4 * 5 + bi.size + bm.size + 4 * 4 + 8 * 4 + 16 * 4);
                stream =
                    u32_bytes c.pid
                    ++ (u32_bytes c.program_counter
                        ++ (u32_bytes (status_code_number c.status_code)
                            ++ (registers
                                ++ (u32_bytes bm.size
                                    ++ (motivo ++ (u32_bytes bi.size ++ instrucciones))))));
              })
              (copy_block bi.size bi.stream)

unfoldable pub read_pcontexto_desalojo : Reader PcontextoDesalojo
read_pcontexto_desalojo = do
  pid ← read_u32
  pc ← read_u32
  status ← read_u32
  registers ← read_registers
  size_motivo ← read_u32
  motivo_bytes ← read_block size_motivo
  (motivo, _) ←
      lift
        (t_instruccion_create_from_buffer (record { size = size_motivo; stream = motivo_bytes }) 0)
  size_instructions ← read_u32
  instruction_bytes ← read_block size_instructions
  instructions ← lift (
      t_lista_instrucciones_create_from_buffer
        (record { size = size_instructions; stream = instruction_bytes }))
  pure (record {
    pid = pid;
    instructions = instructions;
    program_counter = pc;
    registers = registers;
    motivo_desalojo = motivo;
    status_code = status_code_of status;
  })

unfoldable pub t_pcontexto_desalojo_create_from_buffer : Buffer → Option PcontextoDesalojo
t_pcontexto_desalojo_create_from_buffer b =
    Option.map (λ ((c, _) : PcontextoDesalojo × List ℕ). c) (read_pcontexto_desalojo b.stream)
