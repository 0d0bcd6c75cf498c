-- ===== src/Wire/Communication/Delivery.antt =====
-- libs/src/communication.c: a message that is sent arrives with its operation code and its value.
use tp_2023_1c_kernel_flow.Base.{
  ℕ, ◌+◌, ◌%◌, ◌<◌, ◌≡◌, refl, Bool, Option, some, List, arith, length,
}
use tp_2023_1c_kernel_flow.Wire.Bytes.{Buffer, Reads, u32_max}
use tp_2023_1c_kernel_flow.Wire.Types.{Instruccion, Pcontexto, PcontextoDesalojo, PidInstruccion}
use tp_2023_1c_kernel_flow.Wire.Instruccion.{t_lista_instrucciones_create_buffer}
use tp_2023_1c_kernel_flow.Wire.Instruccion.RoundTrip.{IsWellFormed, layout_instruccion}
use tp_2023_1c_kernel_flow.Wire.Instruccion.Lists.{
  AllWellFormed, layout_lista, lista_instrucciones_round_trip,
}
use tp_2023_1c_kernel_flow.Wire.Messages.{t_pid_instruccion_create_buffer}
use tp_2023_1c_kernel_flow.Wire.Messages.RoundTrip.{pid_instruccion_round_trip}
use tp_2023_1c_kernel_flow.Wire.Contexto.{
  t_pcontexto_create_buffer, t_pcontexto_desalojo_create_buffer,
}
use tp_2023_1c_kernel_flow.Wire.Contexto.RoundTrip.{PcontextoFits, pcontexto_round_trip}
use tp_2023_1c_kernel_flow.Wire.Contexto.Desalojo.{DesalojoFits, pcontexto_desalojo_round_trip}
use tp_2023_1c_kernel_flow.Wire.Package.{
  OpCode, instrucciones, pcontexto, pcontextodesalojo, ltsegmentos, tsegmentos, segmento, ofile,
  fileaddress, message_data, instruccion, end, status_code, pid_instruccion, compactar, pid_status,
  info_write, info_read, info, op_number, Package, package_create, Sockets,
}
use tp_2023_1c_kernel_flow.Wire.Package.Framing.{
  GivesArrived, PackageFits, layout_package, package_send_lem, package_recv-Reads,
}
use tp_2023_1c_kernel_flow.Wire.Communication.{
  send_buffer, get_package, send_instrucciones, get_instrucciones, send_pcontexto, get_pcontexto,
  send_pcontexto_desalojo, get_pcontexto_desalojo, send_pid_instruccion, get_pid_instruccion,
}

-- Some bytes are handed to `send`, whatever was sent before; where they have arrived, the peer takes
-- one package off them, whatever follows, whose code is `op` and which `get` turns into the value.
pub record Delivers {ℓ} {A : Type ℓ} (os : Sockets) (send : os.Wire → Option (os.Wire × Bool))
    (op : OpCode) (get : Package → Option A) (x : A) : Type ℓ where
  pub bytes : List ℕ
  pub paquete : Package
  pub sent : (wire : os.Wire) → send wire ≡ some (os.send bytes wire)
  pub received : Reads (get_package os) bytes paquete
  pub dispatched : paquete.operation_code ≡ op_number op
  pub got : get paquete ≡ some x

op_small : (op : OpCode) → op_number op < 256
unfolding op_number
op_small instrucciones = omega arith
op_small pcontexto = omega arith
op_small pcontextodesalojo = omega arith
op_small ltsegmentos = omega arith
op_small tsegmentos = omega arith
op_small segmento = omega arith
op_small ofile = omega arith
op_small fileaddress = omega arith
op_small message_data = omega arith
op_small instruccion = omega arith
op_small end = omega arith
op_small status_code = omega arith
op_small pid_instruccion = omega arith
op_small compactar = omega arith
op_small pid_status = omega arith
op_small info_write = omega arith
op_small info_read = omega arith
op_small info = omega arith

package_of : OpCode → Buffer → Package
package_of op b = record { operation_code = op_number op; buffer = b }

module _ (os : Sockets) (w : GivesArrived os) (op : OpCode) (b : Buffer)
    (filled : b.size ≡ length b.stream) (fits : b.size + 5 < u32_max) where
  package_of-PackageFits : PackageFits (package_of op b)
  unfolding package_of
  package_of-PackageFits = record { op_fits = op_small op; filled = filled; total_fits = fits }

  package_create_lem : package_create (some b) (op_number op) ≡ package_of op b
  unfolding package_create package_of
  package_create_lem =
      let same : op_number op % 256 ≡ op_number op = omega (arith, op_small op) in rw same

  deliver_lem :
      {A : Type 0} {created : Option Buffer} (get : Package → Option A) (x : A)
      → created ≡ some b
      → get (package_of op b) ≡ some x
      → Delivers os (send_buffer os op created) op get x
  unfolding send_buffer get_package package_of
  deliver_lem get x encoded decoded = record {
    bytes = layout_package (package_of op b);
    paquete = package_of op b;
    sent = λ wire.
        rw (encoded, package_create_lem)
          (package_send_lem os (package_of op b) wire package_of-PackageFits).0;
    received = package_recv-Reads os w (package_of op b) package_of-PackageFits;
    dispatched = refl;
    got = decoded;
  }

-- A list of well-formed instructions of less than 2^32 bytes is handed to `send` whole by
-- `send_instrucciones`, if its buffer leaves room for the header. Let `recv` return the bytes that
-- have arrived, up to as many as are asked for. Where the bytes of the message have arrived whole
-- before the peer reads, it takes them off as one package, whatever has arrived behind them, with
-- the operation code of the message, and `get_instrucciones` of the package is the same value.
pub instrucciones_delivered :
    (os : Sockets) (x : List Instruccion)
    → GivesArrived os
    → AllWellFormed x
    → length (layout_lista x) < u32_max
    → ((b : Buffer) → t_lista_instrucciones_create_buffer x ≡ some b → b.size + 5 < u32_max)
    → Delivers os (send_instrucciones os x) instrucciones get_instrucciones x
unfolding send_instrucciones get_instrucciones package_of
instrucciones_delivered os x w well small room =
    let (b, encoded, filled, decoded) = lista_instrucciones_round_trip x well small in
    deliver_lem os w instrucciones b filled (room b encoded) get_instrucciones x encoded decoded

-- A context that fits is handed to `send` whole by `send_pcontexto`, if its buffer leaves room for
-- the header. Let `recv` return the bytes that have arrived, up to as many as are asked for. Where
-- the bytes of the message have arrived whole before the peer reads, it takes them off as one
-- package, whatever has arrived behind them, with the operation code of the message, and
-- `get_pcontexto` of the package is the same value.
pub pcontexto_delivered :
    (os : Sockets) (x : Pcontexto)
    → GivesArrived os
    → PcontextoFits x
    → ((b : Buffer) → t_pcontexto_create_buffer x ≡ some b → b.size + 5 < u32_max)
    → Delivers os (send_pcontexto os x) pcontexto get_pcontexto x
unfolding send_pcontexto get_pcontexto package_of
pcontexto_delivered os x w f room =
    let (b, encoded, filled, decoded) = pcontexto_round_trip x f in
    deliver_lem os w pcontexto b filled (room b encoded) get_pcontexto x encoded decoded

-- An evicted context that fits is handed to `send` whole by `send_pcontexto_desalojo`, if its
-- buffer leaves room for the header. Let `recv` return the bytes that have arrived, up to as many
-- as are asked for. Where the bytes of the message have arrived whole before the peer reads, it
-- takes them off as one package, whatever has arrived behind them, with the operation code of the
-- message, and `get_pcontexto_desalojo` of the package is the same value.
pub pcontexto_desalojo_delivered :
    (os : Sockets) (x : PcontextoDesalojo)
    → GivesArrived os
    → DesalojoFits x
    → ((b : Buffer) → t_pcontexto_desalojo_create_buffer x ≡ some b → b.size + 5 < u32_max)
    → Delivers os (send_pcontexto_desalojo os x) pcontextodesalojo get_pcontexto_desalojo x
unfolding send_pcontexto_desalojo get_pcontexto_desalojo package_of
pcontexto_desalojo_delivered os x w f room =
    let (b, encoded, filled, decoded) = pcontexto_desalojo_round_trip x f in
    deliver_lem os w pcontextodesalojo b filled (room b encoded) get_pcontexto_desalojo x encoded
      decoded

-- A well-formed instruction with its process is handed to `send` whole by `send_pid_instruccion`,
-- if its buffer leaves room for the header. Let `recv` return the bytes that have arrived, up to
-- as many as are asked for. Where the bytes of the message have arrived whole before the peer
-- reads, it takes them off as one package, whatever has arrived behind them, with the operation
-- code of the message, and `get_pid_instruccion` of the package is the same value.
pub pid_instruccion_delivered :
    (os : Sockets) (x : PidInstruccion)
    → GivesArrived os
    → IsWellFormed x.instruccion
    → x.pid < u32_max
    → 8 + length (layout_instruccion x.instruccion) < u32_max
    → ((b : Buffer) → t_pid_instruccion_create_buffer x ≡ some b → b.size + 5 < u32_max)
    → Delivers os (send_pid_instruccion os x) OpCode.pid_instruccion get_pid_instruccion x
unfolding send_pid_instruccion get_pid_instruccion package_of
pid_instruccion_delivered os x w well pid_fits small room =
    let (b, encoded, filled, decoded) = pid_instruccion_round_trip x well pid_fits small in
    deliver_lem os w OpCode.pid_instruccion b filled (room b encoded) get_pid_instruccion x encoded
      decoded
