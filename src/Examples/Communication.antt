-- ===== src/Examples/Communication.antt =====
-- The theorems on the delivery of messages, applied to concrete messages.
use tp_2023_1c_kernel_flow.Base.{ℕ, ◌+◌, ◌<◌, ◌≡◌, ap, Option, none, some, arith}
use tp_2023_1c_kernel_flow.Wire.Bytes.{Buffer, u32_max, u32_bytes, u32s_bytes, copy_block}
use tp_2023_1c_kernel_flow.Wire.Types.{PidInstruccion}
use tp_2023_1c_kernel_flow.Wire.Instruccion.{
  espacio_from, espacio_de_array_parametros, write_parametros, t_instruccion_create_buffer,
  lista_size_from, lista_stream, t_lista_instrucciones_create_buffer,
}
use tp_2023_1c_kernel_flow.Wire.Segments.{
  write_segment, write_segments, t_segments_table_create_buffer,
}
use tp_2023_1c_kernel_flow.Wire.Messages.{t_pid_instruccion_create_buffer}
use tp_2023_1c_kernel_flow.Wire.Contexto.{
  copy_blocks, write_registers, t_pcontexto_create_buffer, t_pcontexto_desalojo_create_buffer,
}
use tp_2023_1c_kernel_flow.Wire.Package.{pcontexto}
use tp_2023_1c_kernel_flow.Wire.Communication.{send_pcontexto, get_pcontexto}
use tp_2023_1c_kernel_flow.Wire.Communication.Delivery.{Delivers, pcontexto_delivered}
use tp_2023_1c_kernel_flow.Examples.Data.{
  set_ax, program, context, evicted, waiting, waiting-GivesArrived, context-PcontextoFits,
}

abbrev size_of : Option Buffer → ℕ
size_of none = 0
size_of (some b) = b.size

abbrev request : PidInstruccion
request = record { pid = 3; instruccion = set_ax }

program_room :
    (b : Buffer) → t_lista_instrucciones_create_buffer program ≡ some b → b.size + 5 < u32_max
unfolding t_lista_instrucciones_create_buffer lista_size_from lista_stream
    t_instruccion_create_buffer espacio_de_array_parametros espacio_from write_parametros copy_block
    u32_bytes u32s_bytes
program_room b e = let same : 56 ≡ b.size = ap size_of e in omega arith

context_room : (b : Buffer) → t_pcontexto_create_buffer context ≡ some b → b.size + 5 < u32_max
unfolding t_pcontexto_create_buffer t_lista_instrucciones_create_buffer lista_size_from lista_stream
    t_instruccion_create_buffer espacio_de_array_parametros espacio_from write_parametros copy_block
    u32_bytes u32s_bytes copy_blocks write_registers t_segments_table_create_buffer write_segments
    write_segment
context_room b e = let same : 216 ≡ b.size = ap size_of e in omega arith

evicted_room :
    (b : Buffer) → t_pcontexto_desalojo_create_buffer evicted ≡ some b → b.size + 5 < u32_max
unfolding t_pcontexto_desalojo_create_buffer t_lista_instrucciones_create_buffer lista_size_from
    lista_stream t_instruccion_create_buffer espacio_de_array_parametros espacio_from
    write_parametros copy_block u32_bytes u32s_bytes copy_blocks write_registers
evicted_room b e = let same : 212 ≡ b.size = ap size_of e in omega arith

request_room :
    (b : Buffer) → t_pid_instruccion_create_buffer request ≡ some b → b.size + 5 < u32_max
unfolding t_pid_instruccion_create_buffer t_instruccion_create_buffer espacio_de_array_parametros
    espacio_from write_parametros copy_block u32_bytes u32s_bytes
request_room b e = let same : 40 ≡ b.size = ap size_of e in omega arith

pcontexto_delivered_example :
    Delivers waiting (send_pcontexto waiting context) pcontexto get_pcontexto context
pcontexto_delivered_example =
    pcontexto_delivered waiting context waiting-GivesArrived context-PcontextoFits context_room
