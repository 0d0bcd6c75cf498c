-- ===== src/Wire/Messages.antt =====
-- libs/src/package.c: the small messages, into a buffer and out of one.
pub mod RoundTrip
use mathlib.Core.Option
use tp_2023_1c_kernel_flow.Base.{ℕ, ◌+◌, ◌*◌, Option, List, [], ◌∷◌, ◌++◌, bind, length}
use tp_2023_1c_kernel_flow.Wire.Bytes.{
  u32, Buffer, Reader, pure, lift, ◌>>=◌, u32_bytes, read_u32, read_block, copy_block,
}
use tp_2023_1c_kernel_flow.Wire.Types.{
  Instruccion, StatusCode, status_code_number, status_code_of, PidInstruccion, PidStatus, Info,
  InfoWrite, InfoRead, Data,
}
use tp_2023_1c_kernel_flow.Wire.Instruccion.{
  t_instruccion_create_buffer, t_instruccion_create_from_buffer,
}

-- What a decoder reads from the start of the stream.
abbrev run : {A : Type 0} → Reader A → Buffer → Option A
run {A} r b = Option.map (λ ((a, _) : A × List ℕ). a) (r b.stream)

unfoldable pub null_buffer : Buffer
null_buffer = record { size = 1; stream = 0 ∷ [] }

unfoldable pub t_address_create_buffer : ℕ → Buffer
t_address_create_buffer address = record { size = 4 * 1; stream = u32_bytes address }

unfoldable pub t_address_create_from_buffer : Buffer → Option ℕ
t_address_create_from_buffer b = run read_u32 b

unfoldable pub t_status_code_create_buffer : StatusCode → Buffer
t_status_code_create_buffer code = record {
  size = 4 * 1;
  stream = u32_bytes (status_code_number code);
}

unfoldable pub t_status_code_create_from_buffer : Buffer → Option StatusCode
t_status_code_create_from_buffer b = Option.map status_code_of (run read_u32 b)

unfoldable pub t_pid_status_create_buffer : PidStatus → Buffer
t_pid_status_create_buffer p = record {
  size = 4 * 2;
  stream = u32_bytes p.pid ++ u32_bytes (status_code_number p.status);
}

unfoldable pub read_pid_status : Reader PidStatus
read_pid_status = do
  pid ← read_u32
  status ← read_u32
  pure (record { pid = pid; status = status_code_of status })

unfoldable pub t_pid_status_create_from_buffer : Buffer → Option PidStatus
t_pid_status_create_from_buffer b = run read_pid_status b

unfoldable pub t_pid_instruccion_create_buffer : PidInstruccion → Option Buffer
t_pid_instruccion_create_buffer p = bind (t_instruccion_create_buffer p.instruccion) λ b.
    Option.map
      (λ bytes. record {
        size = u32 (4 * 2 + b.size);
        stream = u32_bytes p.pid ++ (u32_bytes b.size ++ bytes);
      })
      (copy_block b.size b.stream)

unfoldable pub read_pid_instruccion : Reader PidInstruccion
read_pid_instruccion = do
  pid ← read_u32
  size ← read_u32
  bytes ← read_block size
  (x, _) ← lift (t_instruccion_create_from_buffer (record { size = size; stream = bytes }) 0)
  pure (record { pid = pid; instruccion = x })

unfoldable pub t_pid_instruccion_create_from_buffer : Buffer → Option PidInstruccion
t_pid_instruccion_create_from_buffer b = run read_pid_instruccion b

unfoldable pub t_info_create_buffer : Info → Option Buffer
t_info_create_buffer i =
    Option.map (λ bytes. record { size = u32 (4 + i.size); stream = u32_bytes i.size ++ bytes })
      (copy_block i.size i.block)

unfoldable pub read_info : Reader Info
read_info = do
  size ← read_u32
  block ← read_block size
  pure (record { block = block; size = size })

unfoldable pub t_info_create_from_buffer : Buffer → Option Info
t_info_create_from_buffer b = run read_info b

unfoldable pub t_info_write_create_buffer : InfoWrite → Option Buffer
t_info_write_create_buffer w = bind (t_info_create_buffer w.info) λ b.
    Option.map
      (λ bytes. record {
        size = u32 (4 * 2 + b.size);
        stream = u32_bytes w.base_address ++ (u32_bytes b.size ++ bytes);
      })
      (copy_block b.size b.stream)

unfoldable pub read_info_write : Reader InfoWrite
read_info_write = do
  base ← read_u32
  size ← read_u32
  bytes ← read_block size
  i ← lift (t_info_create_from_buffer (record { size = size; stream = bytes }))
  pure (record { base_address = base; info = i })

unfoldable pub t_info_write_create_from_buffer : Buffer → Option InfoWrite
t_info_write_create_from_buffer b = run read_info_write b

unfoldable pub t_info_read_create_buffer : InfoRead → Buffer
t_info_read_create_buffer r = record {
  size = 4 * 2;
  stream = u32_bytes r.base_address ++ u32_bytes r.size;
}

unfoldable pub read_info_read : Reader InfoRead
read_info_read = do
  base ← read_u32
  size ← read_u32
  pure (record { base_address = base; size = size })

unfoldable pub t_info_read_create_from_buffer : Buffer → Option InfoRead
t_info_read_create_from_buffer b = run read_info_read b

-- `data->value` holds a string with its NUL, so `strlen` is one less than the block.
unfoldable pub t_data_create_buffer : ℕ → Data → Option Buffer
t_data_create_buffer strlen d =
    Option.map
      (λ bytes. record {
        size = u32 (4 * 1 + strlen + 1);
        stream = u32_bytes d.value_length ++ bytes;
      })
      (copy_block (d.value_length + 1) d.value)

unfoldable pub read_data : Reader Data
read_data = do
  value_length ← read_u32
  value ← read_block value_length
  pure (record { value_length = value_length; value = value })

unfoldable pub t_data_create_from_buffer : Buffer → Option Data
t_data_create_from_buffer b = run read_data b
