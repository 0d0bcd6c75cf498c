-- ===== src/Wire/Messages/RoundTrip.antt =====
-- libs/src/package.c: reading back the small messages, and what `t_data` loses on the way.
use tp_2023_1c_kernel_flow.Base.{
  ℕ, ◌+◌, ◌*◌, ◌<◌, ◌≡◌, refl, some, List, [], ◌∷◌, ◌++◌, arith, length, length-append, subst,
}
use tp_2023_1c_kernel_flow.Wire.Bytes.{
  packed, u32, u32_max, Buffer, Reads, Reads-bind, Reads-last, Reads-all, Reads-nil, lift-Reads,
  ◌>>=◌, u32_bytes, read_u32-Reads, read_block-Reads, copy_block, copy_block_self, length-u32_bytes,
}
use tp_2023_1c_kernel_flow.Wire.Types.{
  StatusCode, status_code_number, status_code_of, PidInstruccion, Info, InfoWrite,
}
use tp_2023_1c_kernel_flow.Wire.Instruccion.RoundTrip.{
  IsWellFormed, layout_instruccion, length-layout, instruccion_create_buffer_lem, instruccion_whole,
}
use tp_2023_1c_kernel_flow.Wire.Messages.{
  t_pid_status_create_buffer, read_pid_status, t_pid_status_create_from_buffer,
  t_pid_instruccion_create_buffer, read_pid_instruccion, t_pid_instruccion_create_from_buffer,
  t_info_create_buffer, read_info, t_info_create_from_buffer, t_info_write_create_buffer,
  read_info_write, t_info_write_create_from_buffer, t_info_read_create_buffer, read_info_read,
  t_info_read_create_from_buffer, t_data_create_buffer, read_data, t_data_create_from_buffer,
  t_status_code_create_buffer, t_status_code_create_from_buffer,
}

-- A status code of the enumeration, or another number that a uint32_t holds.
pub record CodeFits (c : StatusCode) : Type 0 where
  pub canonical : status_code_of (status_code_number c) ≡ c
  pub fits : status_code_number c < u32_max

read_pid_status-Reads :
    (pid : ℕ) (c : StatusCode)
    → pid < u32_max
    → CodeFits c
    → Reads read_pid_status
        (u32_bytes pid ++ u32_bytes (status_code_number c))
        (record { pid = pid; status = c })
unfolding read_pid_status
read_pid_status-Reads pid c pid_fits code =
    subst
      (λ d.
        Reads read_pid_status (u32_bytes pid ++ u32_bytes (status_code_number c))
          (record { pid = pid; status = d }))
      code.canonical
      (Reads-bind _ (read_u32-Reads pid pid_fits)
        (Reads-last _ (read_u32-Reads (status_code_number c) code.fits)))

read_info_read-Reads :
    (base size : ℕ)
    → base < u32_max
    → size < u32_max
    → Reads read_info_read
        (u32_bytes base ++ u32_bytes size)
        (record { base_address = base; size = size })
unfolding read_info_read
read_info_read-Reads base size base_fits size_fits =
    Reads-bind _ (read_u32-Reads base base_fits) (Reads-last _ (read_u32-Reads size size_fits))

-- For a status code of the enumeration, or another number of four bytes, and numbers that fit in a
-- uint32_t: a status code, a status with its process, and a request to read are each decoded from
-- the buffer that encodes them.
pub fixed_size_round_trip :
    (c : StatusCode) (pid base size : ℕ)
    → CodeFits c
    → pid < u32_max
    → base < u32_max
    → size < u32_max
    → (t_status_code_create_from_buffer (t_status_code_create_buffer c) ≡ some c)
      × (t_pid_status_create_from_buffer
            (t_pid_status_create_buffer (record { pid = pid; status = c }))
          ≡ some (record { pid = pid; status = c }))
      × (t_info_read_create_from_buffer
            (t_info_read_create_buffer (record { base_address = base; size = size }))
          ≡ some (record { base_address = base; size = size }))
unfolding t_status_code_create_buffer t_status_code_create_from_buffer t_pid_status_create_buffer
    t_pid_status_create_from_buffer t_info_read_create_buffer t_info_read_create_from_buffer
fixed_size_round_trip c pid base size code pid_fits base_fits size_fits = (
  rw (Reads-all (read_u32-Reads (status_code_number c) code.fits)) (rw code.canonical),
  rw (Reads-all (read_pid_status-Reads pid c pid_fits code)),
  rw (Reads-all (read_info_read-Reads base size base_fits size_fits)),
)

abbrev layout_pid_instruccion : PidInstruccion → List ℕ
layout_pid_instruccion p =
    u32_bytes p.pid
    ++ (u32_bytes (length (layout_instruccion p.instruccion)) ++ layout_instruccion p.instruccion)

module _ (p : PidInstruccion) (w : IsWellFormed p.instruccion) (pid_fits : p.pid < u32_max) where
  read_pid_instruccion-Reads : Reads read_pid_instruccion (layout_pid_instruccion p) p
  unfolding read_pid_instruccion
  read_pid_instruccion-Reads = Reads-bind _ (read_u32-Reads p.pid pid_fits) (
      Reads-bind _
        (read_u32-Reads (length bytes) (omega (arith, length-layout p.instruccion w, w.fits)))
        (Reads-nil bytes (
          Reads-bind _ (read_block-Reads (length bytes) bytes refl)
            (Reads-last _ (lift-Reads (instruccion_whole p.instruccion w))))))
    where
      bytes : List ℕ
      bytes = layout_instruccion p.instruccion

-- The size that an encoder announces for a number, a size and a block.
sized_lem :
    (a b : ℕ) (block : List ℕ)
    → 8 + length block < u32_max
    → u32 (4 * 2 + length block) ≡ length (u32_bytes a ++ (u32_bytes b ++ block))
sized_lem a b block h = simp (length-append, length-u32_bytes) (omega arith)

-- A well-formed instruction with the number of a process, of less than 2^32 bytes in all, is
-- encoded in a buffer that is filled exactly, and decoded from it to the same.
pub pid_instruccion_round_trip :
    (p : PidInstruccion)
    → IsWellFormed p.instruccion
    → p.pid < u32_max
    → 8 + length (layout_instruccion p.instruccion) < u32_max
    → (b : Buffer) × (t_pid_instruccion_create_buffer p ≡ some b)
      × (b.size ≡ length b.stream)
      × (t_pid_instruccion_create_from_buffer b ≡ some p)
unfolding t_pid_instruccion_create_buffer t_pid_instruccion_create_from_buffer
pid_instruccion_round_trip p w pid_fits total_fits =
    let bytes = layout_instruccion p.instruccion in
    (
      packed (layout_pid_instruccion p),
      rw (
        instruccion_create_buffer_lem p.instruccion w,
        copy_block_self bytes,
        sized_lem p.pid (length bytes) bytes total_fits,
      ),
      refl,
      rw (Reads-all (read_pid_instruccion-Reads p w pid_fits)),
    )

-- A block with its size.
pub record InfoFits (i : Info) : Type 0 where
  pub measured : length i.block ≡ i.size
  pub total_fits : 12 + i.size < u32_max

abbrev layout_info : Info → List ℕ
layout_info i = u32_bytes i.size ++ i.block

abbrev layout_info_write : InfoWrite → List ℕ
layout_info_write w =
    u32_bytes w.base_address ++ (u32_bytes (length (layout_info w.info)) ++ layout_info w.info)

module _ (i : Info) (f : InfoFits i) where
  read_info-Reads : Reads read_info (layout_info i) i
  unfolding read_info
  read_info-Reads =
      Reads-bind _ (read_u32-Reads i.size (omega (arith, f.total_fits)))
        (Reads-last _ (read_block-Reads i.size i.block f.measured))

  info_create_buffer_lem : t_info_create_buffer i ≡ some (packed (layout_info i))
  unfolding t_info_create_buffer
  info_create_buffer_lem =
      let copied : copy_block i.size i.block ≡ some i.block =
        subst (λ n. copy_block n i.block ≡ some i.block) f.measured (copy_block_self i.block) in
      let sized : u32 (4 + i.size) ≡ length (layout_info i) =
        simp (length-append, length-u32_bytes, f.measured) (omega (arith, f.total_fits)) in
      rw (copied, sized)

  info_whole : t_info_create_from_buffer (packed (layout_info i)) ≡ some i
  unfolding t_info_create_from_buffer
  info_whole = rw (Reads-all read_info-Reads)

  length-layout_info : length (layout_info i) ≡ 4 + i.size
  length-layout_info = simp (length-append, length-u32_bytes, f.measured)

read_info_write-Reads :
    (w : InfoWrite)
    → InfoFits w.info
    → w.base_address < u32_max
    → length (layout_info w.info) < u32_max
    → Reads read_info_write (layout_info_write w) w
unfolding read_info_write
read_info_write-Reads w f base_fits size_fits =
    Reads-bind _ (read_u32-Reads w.base_address base_fits) (
      Reads-bind _ (read_u32-Reads (length (layout_info w.info)) size_fits) (
        Reads-nil (layout_info w.info) (
          Reads-bind _ (read_block-Reads _ (layout_info w.info) refl)
            (Reads-last _ (lift-Reads (info_whole w.info f))))))

-- A block of the size that it states, alone and with an address, of less than 2^32 bytes in all,
-- is encoded in a buffer that is filled exactly, and decoded from it to the same.
pub info_round_trip :
    (w : InfoWrite)
    → InfoFits w.info
    → w.base_address < u32_max
    → (b c : Buffer) × (t_info_create_buffer w.info ≡ some b)
      × (b.size ≡ length b.stream)
      × (t_info_create_from_buffer b ≡ some w.info)
      × (t_info_write_create_buffer w ≡ some c)
      × (c.size ≡ length c.stream)
      × (t_info_write_create_from_buffer c ≡ some w)
unfolding t_info_write_create_buffer t_info_write_create_from_buffer
info_round_trip w f base_fits =
    let bytes = layout_info w.info in
    let fits : 8 + length bytes < u32_max =
      omega (arith, length-layout_info w.info f, f.total_fits) in
    (
      packed bytes,
      packed (layout_info_write w),
      info_create_buffer_lem w.info f,
      refl,
      info_whole w.info f,
      rw (
        info_create_buffer_lem w.info f,
        copy_block_self bytes,
        sized_lem w.base_address (length bytes) bytes fits,
      ),
      refl,
      rw (Reads-all (read_info_write-Reads w f base_fits (omega arith))),
    )

-- For a text whose size fits, the buffer that encodes the text with its closing NUL is filled
-- exactly, and what is decoded from it is the text without the NUL.
pub data_loses_nul :
    (text : List ℕ)
    → length text + 5 < u32_max
    → (b : Buffer) × (t_data_create_buffer
          (length text)
          (record { value_length = length text; value = text ++ 0 ∷ [] })
        ≡ some b)
      × (b.size ≡ length b.stream)
      × (t_data_create_from_buffer b ≡ some (record { value_length = length text; value = text }))
unfolding t_data_create_buffer t_data_create_from_buffer read_data
data_loses_nul text h =
    let block = text ++ 0 ∷ [] in
    let longer : length block ≡ length text + 1 = length-append text (0 ∷ []) in
    let copied : copy_block (length text + 1) block ≡ some block =
      subst (λ n. copy_block n block ≡ some block) longer (copy_block_self block) in
    let sized : u32 (4 * 1 + length text + 1) ≡ length (u32_bytes (length text) ++ block) =
      simp (length-append, length-u32_bytes) (omega arith) in
    (
      packed (u32_bytes (length text) ++ block),
      rw (copied, sized),
      refl,
      rw ((read_u32-Reads (length text) (omega arith)).apply block, ◌>>=◌)
          (rw ((read_block-Reads (length text) text refl).apply (0 ∷ []), ◌>>=◌)),
    )
