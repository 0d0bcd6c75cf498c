-- ===== src/Examples/Data.antt =====
-- Concrete messages: a program of two instructions, its segments and registers, and a socket.
use tp_2023_1c_kernel_flow.Base.{ℕ, refl, true, List, [], ◌∷◌, ◌++◌, replicate, flatten, arith}
use tp_2023_1c_kernel_flow.Wire.Bytes.{read_block, read_block-Reads, u32_bytes, u32s_bytes}
use tp_2023_1c_kernel_flow.Wire.Types.{
  identificador_code, identificador_of, i_set, i_exit, Instruccion, status_code_number,
  status_code_of, success, Registers, Segment, SegmentsTable, Pcontexto, PcontextoDesalojo,
  InfoWrite,
}
use tp_2023_1c_kernel_flow.Wire.Instruccion.RoundTrip.{IsWellFormed}
use tp_2023_1c_kernel_flow.Wire.Segments.RoundTrip.{SegmentFits, TableFits}
use tp_2023_1c_kernel_flow.Wire.Segments.{write_segment, write_segments}
use tp_2023_1c_kernel_flow.Wire.Messages.RoundTrip.{CodeFits}
use tp_2023_1c_kernel_flow.Wire.Contexto.RoundTrip.{RegistersFit, PcontextoFits}
use tp_2023_1c_kernel_flow.Wire.Contexto.Desalojo.{DesalojoFits}
use tp_2023_1c_kernel_flow.Wire.Package.{Package, Sockets}
use tp_2023_1c_kernel_flow.Wire.Package.Framing.{GivesArrived, PackageFits}

-- SET AX HOLA, and EXIT.
abbrev pub set_ax : Instruccion
set_ax = record {
  identificador = i_set;
  cant_parametros = 2;
  p_length = 3 ∷ 5 ∷ 0 ∷ 0 ∷ [];
  parametros = (65 ∷ 88 ∷ 0 ∷ []) ∷ (72 ∷ 79 ∷ 76 ∷ 65 ∷ 0 ∷ []) ∷ [];
}

abbrev pub exit : Instruccion
exit = record {
  identificador = i_exit;
  cant_parametros = 0;
  p_length = 0 ∷ 0 ∷ 0 ∷ 0 ∷ [];
  parametros = [];
}

abbrev pub program : List Instruccion
program = set_ax ∷ exit ∷ []

-- Segment 0 and another, the tables of two processes, and the registers at the start.
abbrev pub segment_0 : Segment
segment_0 = record { id = 0; size = 128; base_address = 0 }

abbrev pub segment_7 : Segment
segment_7 = record { id = 7; size = 40; base_address = 128 }

abbrev pub table_1 : SegmentsTable
table_1 = record { pid = 1; segment_list = segment_0 ∷ segment_7 ∷ [] }

abbrev pub table_2 : SegmentsTable
table_2 = record { pid = 2; segment_list = segment_0 ∷ [] }

abbrev pub registers : Registers
registers = record {
  ax = replicate 4 65;
  bx = replicate 4 0;
  cx = replicate 4 0;
  dx = replicate 4 0;
  eax = replicate 8 66;
  ebx = replicate 8 0;
  ecx = replicate 8 0;
  edx = replicate 8 0;
  rax = replicate 16 67;
  rbx = replicate 16 0;
  rcx = replicate 16 0;
  rdx = replicate 16 0;
}

abbrev pub context : Pcontexto
context = record {
  pid = 1;
  instructions = program;
  program_counter = 1;
  registers = registers;
  segments = segment_0 ∷ segment_7 ∷ [];
}

abbrev pub evicted : PcontextoDesalojo
evicted = record {
  pid = 1;
  instructions = program;
  program_counter = 2;
  registers = registers;
  motivo_desalojo = exit;
  status_code = success;
}

abbrev pub write : InfoWrite
write = record { base_address = 130; info = record { block = 72 ∷ 79 ∷ []; size = 2 } }

pub set_ax-IsWellFormed : IsWellFormed set_ax
unfolding flatten identificador_code identificador_of
set_ax-IsWellFormed = record {
  canonical = refl;
  code_fits = omega arith;
  counted = refl;
  at_most_four = omega arith;
  measured = refl;
  fits = omega arith;
}

pub exit-IsWellFormed : IsWellFormed exit
unfolding flatten identificador_code identificador_of
exit-IsWellFormed = record {
  canonical = refl;
  code_fits = omega arith;
  counted = refl;
  at_most_four = omega arith;
  measured = refl;
  fits = omega arith;
}

pub segment_7-SegmentFits : SegmentFits segment_7
segment_7-SegmentFits = record {
  id_fits = omega arith;
  size_fits = omega arith;
  base_fits = omega arith;
}

pub segment_0-SegmentFits : SegmentFits segment_0
segment_0-SegmentFits = record {
  id_fits = omega arith;
  size_fits = omega arith;
  base_fits = omega arith;
}

pub table_1-TableFits : TableFits table_1
table_1-TableFits = record {
  pid_fits = omega arith;
  segments_fit = (segment_0-SegmentFits, (segment_7-SegmentFits, tt));
  total_fits = omega arith;
}

pub table_2-TableFits : TableFits table_2
table_2-TableFits = record {
  pid_fits = omega arith;
  segments_fit = (segment_0-SegmentFits, tt);
  total_fits = omega arith;
}

pub success-CodeFits : CodeFits success
unfolding status_code_number status_code_of
success-CodeFits = record { canonical = refl; fits = omega arith }

pub registers-RegistersFit : RegistersFit registers
registers-RegistersFit = record {
  ax_four = refl;
  bx_four = refl;
  cx_four = refl;
  dx_four = refl;
  eax_eight = refl;
  ebx_eight = refl;
  ecx_eight = refl;
  edx_eight = refl;
  rax_sixteen = refl;
  rbx_sixteen = refl;
  rcx_sixteen = refl;
  rdx_sixteen = refl;
}

pub context-PcontextoFits : PcontextoFits context
unfolding u32_bytes u32s_bytes flatten write_segments write_segment
context-PcontextoFits = record {
  program_counter_fits = omega arith;
  registers_fit = registers-RegistersFit;
  instructions_fit = (set_ax-IsWellFormed, (exit-IsWellFormed, tt));
  segments_fit = table_1-TableFits;
  total_fits = omega arith;
}

pub evicted-DesalojoFits : DesalojoFits evicted
unfolding u32_bytes u32s_bytes flatten
evicted-DesalojoFits = record {
  pid_fits = omega arith;
  program_counter_fits = omega arith;
  status_fits = success-CodeFits;
  registers_fit = registers-RegistersFit;
  motivo_fits = exit-IsWellFormed;
  instructions_fit = (set_ax-IsWellFormed, (exit-IsWellFormed, tt));
  total_fits = omega arith;
}

-- A socket that appends what is sent, and whose `recv` takes bytes that have arrived.
abbrev pub waiting : Sockets
waiting = record { Wire = List ℕ; send = λ bytes wire. (wire ++ bytes, true); recv = read_block }

pub waiting-GivesArrived : GivesArrived waiting
waiting-GivesArrived = record { all = read_block-Reads }

abbrev pub end_package : Package
end_package = record { operation_code = 10; buffer = record { size = 0; stream = [] } }

abbrev pub data_package : Package
data_package = record { operation_code = 8; buffer = record { size = 2; stream = 1 ∷ 0 ∷ [] } }

pub data_package-PackageFits : PackageFits data_package
data_package-PackageFits = record { op_fits = omega arith; filled = refl; total_fits = omega arith }

pub end_package-PackageFits : PackageFits end_package
end_package-PackageFits = record { op_fits = omega arith; filled = refl; total_fits = omega arith }
