-- ===== src/Filesystem/Servidor.antt =====
-- filesystem/src/filesystem_server.c: an instruction of the kernel is served. `atoi` is a parameter;
-- numbers are not negative. A parameter that is missing is NULL, and a fault.
use mathlib.Core.Option
use tp_2023_1c_kernel_flow.Base.{ℕ, Bool, Option, some, List, ltb, bind, if◌then◌else◌, get_elem?}
use tp_2023_1c_kernel_flow.Wire.Types.{
  Identificador, i_f_open, i_f_read, i_f_write, i_f_truncate, Instruccion, StatusCode, InfoWrite,
  file_open, file_not_exist, file_created, file_read, file_truncated, file_written, file_not_exists,
  error,
}
use tp_2023_1c_kernel_flow.Filesystem.Estado.{Commons, M, pure, ◌>>=◌}
use tp_2023_1c_kernel_flow.Filesystem.Truncar.{create_file, open_file, truncate_file}
use tp_2023_1c_kernel_flow.Filesystem.Acceso.{Answer, read_file, write_file}

-- What comes from outside for a request: the answer of the memory, whether the send to it worked, and
-- what `malloc` leaves in the stream.
pub record Outside : Type 0 where
  pub answer : Answer
  pub sent : Bool
  pub garbage : List ℕ

unfoldable pub number_at : (List ℕ → ℕ) → List (List ℕ) → ℕ → Option ℕ
number_at atoi parametros i = Option.map atoi (get_elem? parametros i)

-- F_OPEN creates the file where there is a second parameter.
unfoldable pub handle_open : {c : Commons} → Instruccion → M c StatusCode
handle_open ins fs = bind (get_elem? ins.parametros 0) λ nombre.
    if ltb 1 ins.cant_parametros
    then (do created ← create_file nombre; pure (if created then file_created else file_open)) fs
    else some (if open_file nombre fs then file_open else file_not_exist, fs)

module _ {c : Commons} (atoi : List ℕ → ℕ) where
  unfoldable pub handle_read : Outside → Instruccion → M c StatusCode
  handle_read outside ins fs = bind (get_elem? ins.parametros 0) λ nombre.
      bind (number_at atoi ins.parametros 1) λ direccion_fisica.
        bind (number_at atoi ins.parametros 2) λ cant_bytes.
          bind (number_at atoi ins.parametros 3) λ puntero_archivo.
            Option.map
              (λ ((done, _) : Bool × Option InfoWrite).
                (if done then file_read else file_not_exists, fs))
              (read_file outside.garbage nombre puntero_archivo cant_bytes direccion_fisica
                outside.sent outside.answer fs)

  unfoldable pub handle_write : Outside → Instruccion → M c StatusCode
  handle_write outside ins fs = bind (get_elem? ins.parametros 0) λ nombre.
      bind (number_at atoi ins.parametros 1) λ direccion_fisica.
        bind (number_at atoi ins.parametros 2) λ cant_bytes.
          bind (number_at atoi ins.parametros 3) λ puntero_archivo.
            (do
              done ← write_file nombre puntero_archivo cant_bytes outside.answer
              pure (if done then file_written else error))
              fs

  unfoldable pub handle_truncate : Instruccion → M c StatusCode
  handle_truncate ins fs = bind (get_elem? ins.parametros 0) λ nombre.
      bind (number_at atoi ins.parametros 1) λ nuevo_tamanio.
        (do
          done ← truncate_file nombre nuevo_tamanio
          pure (if done then file_truncated else file_not_exists))
          fs

  unfoldable pub serve : Identificador → Outside → Instruccion → M c StatusCode
  serve i_f_open outside ins = handle_open ins
  serve i_f_read outside ins = handle_read outside ins
  serve i_f_write outside ins = handle_write outside ins
  serve i_f_truncate outside ins = handle_truncate ins
  serve _ outside ins = pure error

  -- `handle_instruccion`, with `process_request_async` for the last three.
  unfoldable pub handle_instruccion : Outside → Instruccion → M c StatusCode
  handle_instruccion outside ins = serve ins.identificador outside ins
