-- ===== src/Examples/Wire.antt =====
-- The theorems on messages, applied to concrete messages.
use tp_2023_1c_kernel_flow.Base.{◌≡◌, some, [], ◌∷◌, length, flatten, arith}
use tp_2023_1c_kernel_flow.Wire.Bytes.{Buffer, Reads, u32_bytes, u32s_bytes}
use tp_2023_1c_kernel_flow.Wire.Instruccion.{
  t_lista_instrucciones_create_buffer, t_lista_instrucciones_create_from_buffer,
}
use tp_2023_1c_kernel_flow.Wire.Instruccion.Lists.{lista_instrucciones_round_trip}
use tp_2023_1c_kernel_flow.Wire.Segments.{
  t_lista_t_segments_create_buffer, t_lista_t_segments_create_from_buffer,
}
use tp_2023_1c_kernel_flow.Wire.Segments.Tables.{lista_t_segments_round_trip}
use tp_2023_1c_kernel_flow.Wire.Segments.{write_segment, write_segments}
use tp_2023_1c_kernel_flow.Wire.Messages.{t_data_create_buffer, t_data_create_from_buffer}
use tp_2023_1c_kernel_flow.Wire.Messages.RoundTrip.{data_loses_nul}
use tp_2023_1c_kernel_flow.Wire.Contexto.{
  t_pcontexto_create_buffer, t_pcontexto_create_from_buffer, t_pcontexto_desalojo_create_buffer,
  t_pcontexto_desalojo_create_from_buffer,
}
use tp_2023_1c_kernel_flow.Wire.Contexto.RoundTrip.{pcontexto_round_trip}
use tp_2023_1c_kernel_flow.Wire.Contexto.Desalojo.{pcontexto_desalojo_round_trip}
use tp_2023_1c_kernel_flow.Wire.Package.Framing.{
  layout_packages, recv_packages, packages_round_trip,
}
use tp_2023_1c_kernel_flow.Examples.Data.{
  program, table_1, table_2, context, evicted, set_ax-IsWellFormed, exit-IsWellFormed,
  table_1-TableFits, table_2-TableFits, context-PcontextoFits, evicted-DesalojoFits, waiting,
  waiting-GivesArrived, end_package, data_package, data_package-PackageFits,
  end_package-PackageFits,
}

lista_instrucciones_round_trip_example :
    (b : Buffer) × (t_lista_instrucciones_create_buffer program ≡ some b)
    × (b.size ≡ length b.stream)
    × (t_lista_instrucciones_create_from_buffer b ≡ some program)
unfolding u32_bytes u32s_bytes flatten
lista_instrucciones_round_trip_example =
    lista_instrucciones_round_trip program (set_ax-IsWellFormed, (exit-IsWellFormed, tt))
      (omega arith)

lista_t_segments_round_trip_example :
    (b : Buffer) × (t_lista_t_segments_create_buffer (table_1 ∷ table_2 ∷ []) ≡ some b)
    × (b.size ≡ length b.stream)
    × (t_lista_t_segments_create_from_buffer b ≡ some (table_1 ∷ table_2 ∷ []))
unfolding u32_bytes u32s_bytes write_segments write_segment
lista_t_segments_round_trip_example =
    lista_t_segments_round_trip (table_1 ∷ table_2 ∷ [])
      (table_1-TableFits, (table_2-TableFits, tt)) (omega arith)

data_loses_nul_example :
    (b : Buffer) × (t_data_create_buffer 2 (record { value_length = 2; value = 72 ∷ 79 ∷ 0 ∷ [] })
      ≡ some b)
    × (b.size ≡ length b.stream)
    × (t_data_create_from_buffer b ≡ some (record { value_length = 2; value = 72 ∷ 79 ∷ [] }))
data_loses_nul_example = data_loses_nul (72 ∷ 79 ∷ []) (omega arith)

pcontexto_round_trip_example :
    (b : Buffer) × (t_pcontexto_create_buffer context ≡ some b)
    × (b.size ≡ length b.stream)
    × (t_pcontexto_create_from_buffer b ≡ some context)
pcontexto_round_trip_example = pcontexto_round_trip context context-PcontextoFits

pcontexto_desalojo_round_trip_example :
    (b : Buffer) × (t_pcontexto_desalojo_create_buffer evicted ≡ some b)
    × (b.size ≡ length b.stream)
    × (t_pcontexto_desalojo_create_from_buffer b ≡ some evicted)
pcontexto_desalojo_round_trip_example = pcontexto_desalojo_round_trip evicted evicted-DesalojoFits

packages_round_trip_example :
    Reads
      (recv_packages waiting 2)
      (layout_packages (data_package ∷ end_package ∷ []))
      (data_package ∷ end_package ∷ [])
packages_round_trip_example =
    packages_round_trip waiting waiting-GivesArrived (data_package ∷ end_package ∷ [])
      (data_package-PackageFits, (end_package-PackageFits, tt))
