-- ===== src/Wire/Package.antt =====
-- libs/src/package.c and libs/src/communication.c: a message with its header, sent to a socket and
-- received from one. `send` and `recv` are the operating system's: `send` may fail, and `recv`
-- takes bytes off the front of those that have arrived.
pub mod Framing
use mathlib.Core.Option
use tp_2023_1c_kernel_flow.Base.{
  ℕ, ◌+◌, ◌%◌, Bool, true, false, Option, none, some, List, [], ◌∷◌, ◌++◌, bind, if◌then◌else◌,
}
use tp_2023_1c_kernel_flow.Wire.Bytes.{
  u32, Buffer, Reader, pure, lift, ◌>>=◌, u32_bytes, read_u32, copy_block,
}
use tp_2023_1c_kernel_flow.Wire.Messages.{null_buffer}

-- op_code.
pub data OpCode : Type 0 where
  instrucciones pcontexto pcontextodesalojo ltsegmentos tsegmentos segmento ofile : OpCode
  fileaddress message_data instruccion end status_code pid_instruccion compactar pid_status : OpCode
  info_write info_read info : OpCode

unfoldable pub op_number : OpCode → ℕ
op_number instrucciones = 0
op_number pcontexto = 1
op_number pcontextodesalojo = 2
op_number ltsegmentos = 3
op_number tsegmentos = 4
op_number segmento = 5
op_number ofile = 6
op_number fileaddress = 7
op_number message_data = 8
op_number instruccion = 9
op_number end = 10
op_number status_code = 11
op_number pid_instruccion = 12
op_number compactar = 13
op_number pid_status = 14
op_number info_write = 15
op_number info_read = 16
op_number info = 17

-- `operation_code` is a uint8_t.
pub record Package : Type 0 where
  pub operation_code : ℕ
  pub buffer : Buffer

-- A `none` buffer is NULL.
unfoldable pub package_create : Option Buffer → ℕ → Package
package_create none op = record { operation_code = op % 256; buffer = null_buffer }
package_create (some b) op = record { operation_code = op % 256; buffer = b }

unfoldable pub package_get_size : Package → ℕ
package_get_size p = u32 (p.buffer.size + 1 + 4)

-- The bytes of `a_enviar`.
unfoldable pub package_bytes : Package → Option (List ℕ)
package_bytes p =
    Option.map (λ payload. (p.operation_code ∷ []) ++ (u32_bytes p.buffer.size ++ payload))
      (copy_block p.buffer.size p.buffer.stream)

-- The sockets: what the operating system does with the bytes of one `send`, whether it failed, and
-- what one `recv` of so many bytes takes from those that have arrived.
pub record Sockets : Type 1 where
  pub Wire : Type 0
  pub send : List ℕ → Wire → Wire × Bool
  pub recv : ℕ → Reader (List ℕ)

unfoldable pub first_byte : List ℕ → Option ℕ
first_byte [] = none
first_byte (x ∷ xs) = some x

module _ (os : Sockets) where
  open os use {Wire, send, recv}

  -- `false` where `send` answers -1.
  unfoldable pub package_send : Package → Wire → Option (Wire × Bool)
  package_send p wire = Option.map (λ bytes. send bytes wire) (package_bytes p)

  -- The first two of the three calls of `recv`.
  unfoldable pub recv_operation_code : Reader ℕ
  recv_operation_code = recv 1 >>= λ bytes. lift (first_byte bytes)

  unfoldable pub recv_size : Reader ℕ
  recv_size = recv 4 >>= λ bytes. lift (Option.map (λ ((n, _) : ℕ × List ℕ). n) (read_u32 bytes))

  unfoldable pub package_recv : Reader Package
  package_recv = do
    op ← recv_operation_code
    size ← recv_size
    stream ← recv size
    pure (record { operation_code = op; buffer = record { size = size; stream = stream } })
