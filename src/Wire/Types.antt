-- ===== src/Wire/Types.antt =====
-- libs/include/types.h: the data that travels between the modules. A `void *` block or a `char *`
-- is the list of the bytes that it holds, the closing NUL included.
use tp_2023_1c_kernel_flow.Base.{ℕ, List, [], ◌∷◌, get_or}

-- t_identificador. `other` is a value outside of the enumeration.
pub data Identificador : Type 0 where
  i_f_read i_f_write i_set i_mov_in i_mov_out i_f_truncate i_f_seek i_create_segment : Identificador
  i_i_o i_wait i_signal i_f_open i_f_close i_delete_segment i_exit i_yield : Identificador
  other : ℕ → Identificador

abbrev identificadores : List Identificador
identificadores =
    i_f_read ∷ i_f_write ∷ i_set ∷ i_mov_in ∷ i_mov_out ∷ i_f_truncate ∷ i_f_seek ∷ i_create_segment
    ∷ i_i_o ∷ i_wait ∷ i_signal ∷ i_f_open ∷ i_f_close ∷ i_delete_segment ∷ i_exit ∷ i_yield ∷ []

-- The number of a constructor of the enumeration, and the constructor of a number.
unfoldable pub identificador_code : Identificador → ℕ
identificador_code i_f_read = 0
identificador_code i_f_write = 1
identificador_code i_set = 2
identificador_code i_mov_in = 3
identificador_code i_mov_out = 4
identificador_code i_f_truncate = 5
identificador_code i_f_seek = 6
identificador_code i_create_segment = 7
identificador_code i_i_o = 8
identificador_code i_wait = 9
identificador_code i_signal = 10
identificador_code i_f_open = 11
identificador_code i_f_close = 12
identificador_code i_delete_segment = 13
identificador_code i_exit = 14
identificador_code i_yield = 15
identificador_code (other n) = n

unfoldable pub identificador_of : ℕ → Identificador
identificador_of n = get_or identificadores n (other n)

-- t_status_code.
pub data StatusCode : Type 0 where
  segmentation_fault compactation_required out_of_memory max_seg_quantity_reached : StatusCode
  file_open file_not_exist file_created file_read file_truncated file_written : StatusCode
  file_not_exists success process_new process_end error invalid_resource : StatusCode
  process_aborted : StatusCode
  unknown : ℕ → StatusCode

abbrev status_codes : List StatusCode
status_codes =
    segmentation_fault ∷ compactation_required ∷ out_of_memory ∷ max_seg_quantity_reached
    ∷ file_open ∷ file_not_exist ∷ file_created ∷ file_read ∷ file_truncated ∷ file_written
    ∷ file_not_exists ∷ success ∷ process_new ∷ process_end ∷ error ∷ invalid_resource
    ∷ process_aborted ∷ []

unfoldable pub status_code_number : StatusCode → ℕ
status_code_number segmentation_fault = 0
status_code_number compactation_required = 1
status_code_number out_of_memory = 2
status_code_number max_seg_quantity_reached = 3
status_code_number file_open = 4
status_code_number file_not_exist = 5
status_code_number file_created = 6
status_code_number file_read = 7
status_code_number file_truncated = 8
status_code_number file_written = 9
status_code_number file_not_exists = 10
status_code_number success = 11
status_code_number process_new = 12
status_code_number process_end = 13
status_code_number error = 14
status_code_number invalid_resource = 15
status_code_number process_aborted = 16
status_code_number (unknown n) = n

unfoldable pub status_code_of : ℕ → StatusCode
status_code_of n = get_or status_codes n (unknown n)

-- t_instruccion. `p_length` is an array of four numbers.
pub record Instruccion : Type 0 where
  pub identificador : Identificador
  pub cant_parametros : ℕ
  pub p_length : List ℕ
  pub parametros : List (List ℕ)

-- t_registers: the blocks have 4, 8 and 16 bytes.
pub record Registers : Type 0 where
  pub ax : List ℕ
  pub bx : List ℕ
  pub cx : List ℕ
  pub dx : List ℕ
  pub eax : List ℕ
  pub ebx : List ℕ
  pub ecx : List ℕ
  pub edx : List ℕ
  pub rax : List ℕ
  pub rbx : List ℕ
  pub rcx : List ℕ
  pub rdx : List ℕ

pub record Segment : Type 0 where
  pub id : ℕ
  pub size : ℕ
  pub base_address : ℕ

pub record SegmentsTable : Type 0 where
  pub pid : ℕ
  pub segment_list : List Segment

pub record Pcontexto : Type 0 where
  pub pid : ℕ
  pub instructions : List Instruccion
  pub program_counter : ℕ
  pub registers : Registers
  pub segments : List Segment

pub record PcontextoDesalojo : Type 0 where
  pub pid : ℕ
  pub instructions : List Instruccion
  pub program_counter : ℕ
  pub registers : Registers
  pub motivo_desalojo : Instruccion
  pub status_code : StatusCode

pub record PidInstruccion : Type 0 where
  pub pid : ℕ
  pub instruccion : Instruccion

pub record PidStatus : Type 0 where
  pub pid : ℕ
  pub status : StatusCode

pub record Info : Type 0 where
  pub block : List ℕ
  pub size : ℕ

pub record InfoWrite : Type 0 where
  pub base_address : ℕ
  pub info : Info

pub record InfoRead : Type 0 where
  pub base_address : ℕ
  pub size : ℕ

pub record Data : Type 0 where
  pub value_length : ℕ
  pub value : List ℕ
