-- ===== src/Wire/Communication.antt =====
-- libs/src/communication.c: each message is an encoded value in a package with its operation code.
-- `send_data` is left to the encoder, which takes the length of the string from `strlen`.
pub mod Delivery
use mathlib.Core.Option
use tp_2023_1c_kernel_flow.Base.{ℕ, Bool, Option, none, some, List, [], ◌∷◌, bind}
use tp_2023_1c_kernel_flow.Wire.Bytes.{Buffer, Reader}
use tp_2023_1c_kernel_flow.Wire.Types.{
  Instruccion, i_exit, Segment, SegmentsTable, StatusCode, Pcontexto, PcontextoDesalojo,
  PidInstruccion, PidStatus, Info, InfoWrite, InfoRead, Data,
}
use tp_2023_1c_kernel_flow.Wire.Instruccion.{
  t_instruccion_create_buffer, t_instruccion_create_from_buffer,
  t_lista_instrucciones_create_buffer, t_lista_instrucciones_create_from_buffer,
}
use tp_2023_1c_kernel_flow.Wire.Segments.{
  t_segment_create_buffer, t_segment_create_from_buffer, t_segments_table_create_buffer,
  t_segments_table_create_from_buffer, t_lista_t_segments_create_buffer,
  t_lista_t_segments_create_from_buffer,
}
use tp_2023_1c_kernel_flow.Wire.Messages.{
  t_address_create_buffer, t_address_create_from_buffer, t_status_code_create_buffer,
  t_status_code_create_from_buffer, t_pid_status_create_buffer, t_pid_status_create_from_buffer,
  t_info_read_create_buffer, t_info_read_create_from_buffer, t_pid_instruccion_create_buffer,
  t_pid_instruccion_create_from_buffer, t_info_create_buffer, t_info_create_from_buffer,
  t_info_write_create_buffer, t_info_write_create_from_buffer, t_data_create_from_buffer,
}
use tp_2023_1c_kernel_flow.Wire.Contexto.{
  t_pcontexto_create_buffer, t_pcontexto_create_from_buffer, t_pcontexto_desalojo_create_buffer,
  t_pcontexto_desalojo_create_from_buffer,
}
use tp_2023_1c_kernel_flow.Wire.Package.{
  OpCode, instrucciones, pcontexto, pcontextodesalojo, ltsegmentos, tsegmentos, segmento,
  fileaddress, instruccion, end, compactar, pid_status, info_write, info_read, op_number, Package,
  package_create, Sockets, package_send, package_recv,
}

unfoldable pub get_instrucciones : Package → Option (List Instruccion)
get_instrucciones p = t_lista_instrucciones_create_from_buffer p.buffer

unfoldable pub get_pcontexto : Package → Option (Pcontexto)
get_pcontexto p = t_pcontexto_create_from_buffer p.buffer

unfoldable pub get_pcontexto_desalojo : Package → Option (PcontextoDesalojo)
get_pcontexto_desalojo p = t_pcontexto_desalojo_create_from_buffer p.buffer

unfoldable pub get_data : Package → Option (Data)
get_data p = t_data_create_from_buffer p.buffer

unfoldable pub get_address : Package → Option ℕ
get_address p = t_address_create_from_buffer p.buffer

unfoldable pub get_instruccion : Package → Option (Instruccion)
get_instruccion p =
    Option.map (λ ((x, _) : Instruccion × ℕ). x) (t_instruccion_create_from_buffer p.buffer 0)

unfoldable pub get_ltsegmentos : Package → Option (List SegmentsTable)
get_ltsegmentos p = t_lista_t_segments_create_from_buffer p.buffer

unfoldable pub get_tsegmento : Package → Option (SegmentsTable)
get_tsegmento p =
    Option.map (λ ((x, _) : SegmentsTable × ℕ). x) (t_segments_table_create_from_buffer p.buffer 0)

unfoldable pub get_segment : Package → Option (Segment)
get_segment p = Option.map (λ ((x, _) : Segment × ℕ). x) (t_segment_create_from_buffer p.buffer 0)

unfoldable pub get_status_code : Package → Option (StatusCode)
get_status_code p = t_status_code_create_from_buffer p.buffer

unfoldable pub get_pid_instruccion : Package → Option (PidInstruccion)
get_pid_instruccion p = t_pid_instruccion_create_from_buffer p.buffer

unfoldable pub get_pid_status : Package → Option (PidStatus)
get_pid_status p = t_pid_status_create_from_buffer p.buffer

unfoldable pub get_info_write : Package → Option (InfoWrite)
get_info_write p = t_info_write_create_from_buffer p.buffer

unfoldable pub get_info_read : Package → Option (InfoRead)
get_info_read p = t_info_read_create_from_buffer p.buffer

unfoldable pub get_info : Package → Option (Info)
get_info p = t_info_create_from_buffer p.buffer

-- The lines that all the sends share; the outer `none` is a fault of the encoder.
unfoldable pub send_buffer :
    (os : Sockets) → OpCode → Option Buffer → os.Wire → Option (os.Wire × Bool)
send_buffer os op buffer wire =
    bind buffer λ b. package_send os (package_create (some b) (op_number op)) wire

module _ (os : Sockets) where
  open os use {Wire}

  unfoldable pub get_package : Reader Package
  get_package = package_recv os

  unfoldable pub send_instrucciones : List Instruccion → Wire → Option (Wire × Bool)
  send_instrucciones x = send_buffer os instrucciones (t_lista_instrucciones_create_buffer x)

  unfoldable pub send_pcontexto : Pcontexto → Wire → Option (Wire × Bool)
  send_pcontexto x = send_buffer os pcontexto (t_pcontexto_create_buffer x)

  unfoldable pub send_pcontexto_desalojo : PcontextoDesalojo → Wire → Option (Wire × Bool)
  send_pcontexto_desalojo x =
      send_buffer os pcontextodesalojo (t_pcontexto_desalojo_create_buffer x)

  unfoldable pub send_address : ℕ → Wire → Option (Wire × Bool)
  send_address x = send_buffer os fileaddress (some (t_address_create_buffer x))

  unfoldable pub send_instruccion : Instruccion → Wire → Option (Wire × Bool)
  send_instruccion x = send_buffer os instruccion (t_instruccion_create_buffer x)

  unfoldable pub send_ltsegmentos : List SegmentsTable → Wire → Option (Wire × Bool)
  send_ltsegmentos x = send_buffer os ltsegmentos (t_lista_t_segments_create_buffer x)

  unfoldable pub send_tsegmento : SegmentsTable → Wire → Option (Wire × Bool)
  send_tsegmento x = send_buffer os tsegmentos (some (t_segments_table_create_buffer x))

  unfoldable pub send_segment : Segment → Wire → Option (Wire × Bool)
  send_segment x = send_buffer os segmento (some (t_segment_create_buffer x))

  unfoldable pub send_status_code : StatusCode → Wire → Option (Wire × Bool)
  send_status_code x = send_buffer os OpCode.status_code (some (t_status_code_create_buffer x))

  unfoldable pub send_pid_instruccion : PidInstruccion → Wire → Option (Wire × Bool)
  send_pid_instruccion x = send_buffer os OpCode.pid_instruccion (t_pid_instruccion_create_buffer x)

  unfoldable pub send_pid_status : PidStatus → Wire → Option (Wire × Bool)
  send_pid_status x = send_buffer os pid_status (some (t_pid_status_create_buffer x))

  unfoldable pub send_info_write : InfoWrite → Wire → Option (Wire × Bool)
  send_info_write x = send_buffer os info_write (t_info_write_create_buffer x)

  unfoldable pub send_info_read : InfoRead → Wire → Option (Wire × Bool)
  send_info_read x = send_buffer os info_read (some (t_info_read_create_buffer x))

  unfoldable pub send_info : Info → Wire → Option (Wire × Bool)
  send_info x = send_buffer os OpCode.info (t_info_create_buffer x)

  unfoldable pub send_end : Wire → Option (Wire × Bool)
  send_end = package_send os (package_create none (op_number end))

  unfoldable pub send_compactar : Wire → Option (Wire × Bool)
  send_compactar = package_send os (package_create none (op_number compactar))

  unfoldable pub send_exit : Wire → Option (Wire × Bool)
  send_exit = send_instruccion (record {
    identificador = i_exit;
    cant_parametros = 0;
    p_length = 0 ∷ 0 ∷ 0 ∷ 0 ∷ [];
    parametros = [];
  })
