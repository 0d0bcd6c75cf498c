-- ===== src/Kernel/Archivos.antt =====
-- kernel/src/kernel_sources.c: the files that processes have open. kernel/src/kernel_instructions.c:
-- the instructions on them that the kernel answers by itself or with one question to the file system.
use mathlib.Core.Option
use tp_2023_1c_kernel_flow.Base.{
  ℕ, zero, suc, ◌+◌, Bool, true, false, Option, none, some, List, [], ◌∷◌, ◌++◌, ◌==◌,
  if◌then◌else◌, bind, get_elem?, set, pos, decrement, is_positive, length,
}
use tp_2023_1c_kernel_flow.Wire.Types.{
  Instruccion, PcontextoDesalojo, StatusCode, status_code_number, file_open, file_created,
  file_not_exist, error,
}
use tp_2023_1c_kernel_flow.Wire.Bytes.{u32}
use tp_2023_1c_kernel_flow.Wire.Package.{Package, op_number, status_code}
use tp_2023_1c_kernel_flow.Wire.Communication.{get_status_code}
use tp_2023_1c_kernel_flow.Wire.Duplicados.{instruccion_duplicate}
use tp_2023_1c_kernel_flow.Kernel.Estado.{
  Recurso, ArchivoAbierto, update, q_block, M, pure, ◌>>=◌, ◌>>◌, ask, if_null, follow, load, save,
  send, to_filesystem, set_exit, set_files, set_next_queue, receive_from_filesystem,
}
use tp_2023_1c_kernel_flow.Kernel.Recursos.{Library, find_named, wake_first, invalid, give_instance}

unfoldable pub is_code : StatusCode → StatusCode → Bool
is_code a b = status_code_number a == status_code_number b

unfoldable pub allocate : ℕ → Recurso → M (Unit {0})
allocate p r k = some (tt, record k { heap = update p (some r) k.heap; fresh = p + 1 })

-- The new pointer; the name is a copy.
unfoldable pub crear_archivo : List ℕ → M ℕ
crear_archivo name = do
  p ← ask (λ k. k.fresh)
  allocate p (record { recurso = name; instancias = pos 1; lista_bloqueados = [] })
  pure p

unfoldable pub archivo_abierto_create : ℕ → ArchivoAbierto
archivo_abierto_create p = record { archivo = p; puntero = 0 }

-- The elements added at the end of the two lists.
unfoldable pub add_file : ℕ → ArchivoAbierto → M (Unit {0})
unfolding set_files
add_file pid file k = set_files pid ((k.pcbs pid).open_files_table ++ file ∷ []) k

unfoldable pub add_archivo : ℕ → M (Unit {0})
add_archivo p k = some (tt, record k { archivos_abiertos = k.archivos_abiertos ++ p ∷ [] })

-- One instance less.
unfoldable pub lose_instance : ℕ → M (Unit {0})
lose_instance p = do r ← load p; save p (some (record r { instancias = decrement r.instancias }))

-- A file that nobody had open, now open for the process.
unfoldable pub open_new : ℕ → List ℕ → M Bool
open_new pid name = do
  p ← crear_archivo name
  add_archivo p
  add_file pid (archivo_abierto_create p)
  lose_instance p
  pure true

-- A file that another process has open: the process waits for it.
unfoldable pub open_shared : ℕ → ℕ → M Bool
open_shared pid p = do
  add_file pid (archivo_abierto_create p)
  r ← load p
  save p (
      some (record r {
        lista_bloqueados = r.lista_bloqueados ++ pid ∷ [];
        instancias = decrement r.instancias;
      }))
  set_next_queue pid q_block
  pure false

unfoldable pub fail_with : ℕ → StatusCode → M Bool
fail_with pid code = set_exit pid code >> pure false

unfoldable pub drop_archivo : (List ℕ → ℕ → List ℕ) → ℕ → M (Unit {0})
drop_archivo list_remove_element p k =
    some (tt, record k { archivos_abiertos = list_remove_element k.archivos_abiertos p })

-- One instance more: without owners the file is destroyed, or else the first that waits moves on.
unfoldable pub close_archivo : (List ℕ → ℕ → List ℕ) → ℕ → M (Unit {0})
close_archivo list_remove_element p = do
  left ← give_instance p
  if is_positive left then drop_archivo list_remove_element p >> save p none else wake_first p

-- Where the pointer to an open file is -1 or NULL, the answer is `none`.
unfoldable pub find_open :
    (List ℕ → Bool) → (ℕ → Option Recurso) → List ArchivoAbierto → Option (Option ℕ)
find_open is_name heap [] = some none
find_open is_name heap (a ∷ rest) =
    let found = Option.map (λ o. Option.map suc o) (find_open is_name heap rest) in
    bind (heap a.archivo) λ r. if is_name r.recurso then some (some 0) else found

abbrev pub remove_file : List ArchivoAbierto → ℕ → List ArchivoAbierto
remove_file [] i = []
remove_file (a ∷ rest) zero = rest
remove_file (a ∷ rest) (suc i) = a ∷ remove_file rest i

-- The characters of "create" and the NUL.
abbrev create_text : List ℕ
create_text = 99 ∷ 114 ∷ 101 ∷ 97 ∷ 116 ∷ 101 ∷ 0 ∷ []

-- The instruction that asks the file system to create a file.
unfoldable pub with_create : Instruccion → Instruccion
with_create x = record x {
  parametros = x.parametros ++ create_text ∷ [];
  cant_parametros = x.cant_parametros + 1;
  p_length = set x.p_length 1 (length create_text);
}

module _ (lib : Library) where
  open lib use {atoi, string_duplicate, string_equals_ignore_case, list_remove_element}

  unfoldable pub buscar_archivo : List ℕ → M (Option ℕ)
  buscar_archivo name = do
    found ← ask (λ k. find_named (λ r. string_equals_ignore_case r name) k.heap k.archivos_abiertos)
    follow found

  -- The index of the open file: `buscar_archivo_abierto` answers the element at it.
  unfoldable pub find_archivo_abierto_index : ℕ → List ℕ → M (Option ℕ)
  find_archivo_abierto_index pid name = do
    found ← ask (λ k.
        find_open (λ r. string_equals_ignore_case r name) k.heap (k.pcbs pid).open_files_table)
    follow found

  unfoldable pub buscar_archivo_abierto : ℕ → List ℕ → M (Option ArchivoAbierto)
  buscar_archivo_abierto pid name = do
    found ← find_archivo_abierto_index pid name
    pcb ← ask (λ k. k.pcbs pid)
    pure (bind found (λ i. get_elem? pcb.open_files_table i))

  -- The answer of the file system to a request to create the file.
  unfoldable pub created : ℕ → List ℕ → Package → M Bool
  created pid name p =
      if p.operation_code == op_number status_code
      then follow (get_status_code p) >>= (λ code.
        if is_code code file_open
        then open_new pid (string_duplicate name)
        else if is_code code file_created
        then open_new pid (string_duplicate name)
        else fail_with pid code)
      else fail_with pid error

  unfoldable pub execute_fcreate : ℕ → PcontextoDesalojo → M Bool
  execute_fcreate pid context = do
    name ← follow (get_elem? context.motivo_desalojo.parametros 0)
    copy ← follow (instruccion_duplicate string_duplicate context.motivo_desalojo)
    send (to_filesystem (with_create copy))
    p ← receive_from_filesystem
    created pid name p

  -- The answer of the file system to a request to open the file.
  unfoldable pub opened : ℕ → PcontextoDesalojo → List ℕ → Package → M Bool
  opened pid context name p =
      if p.operation_code == op_number status_code
      then follow (get_status_code p) >>= (λ code.
        if is_code code file_open
        then open_new pid (string_duplicate name)
        else if is_code code file_not_exist
        then execute_fcreate pid context
        else fail_with pid code)
      else fail_with pid error

  unfoldable pub execute_fopen : ℕ → PcontextoDesalojo → M Bool
  execute_fopen pid context = do
    name ← follow (get_elem? context.motivo_desalojo.parametros 0)
    archivo ← buscar_archivo name
    if_null archivo
        (send (to_filesystem context.motivo_desalojo)
          >> (receive_from_filesystem >>= (λ p. opened pid context name p)))
        (λ q. open_shared pid q)

  -- The file of the kernel and the open file of the process, which both must exist.
  unfoldable pub with_open_file : ℕ → List ℕ → (ℕ → ℕ → M Bool) → M Bool
  with_open_file pid name f = do
    archivo ← buscar_archivo name
    if_null archivo (invalid pid) (λ p.
        find_archivo_abierto_index pid name >>= (λ abierto. if_null abierto (invalid pid) (f p)))

  unfoldable pub close_at : ℕ → ℕ → ℕ → M Bool
  close_at pid p i = do
    pcb ← ask (λ k. k.pcbs pid)
    set_files pid (remove_file pcb.open_files_table i)
    close_archivo list_remove_element p
    pure true

  unfoldable pub execute_fclose : ℕ → PcontextoDesalojo → M Bool
  execute_fclose pid context = do
    name ← follow (get_elem? context.motivo_desalojo.parametros 0)
    with_open_file pid name (close_at pid)

  -- `puntero` is a uint32_t.
  unfoldable pub seek_at : ℕ → PcontextoDesalojo → ℕ → ℕ → M Bool
  seek_at pid context p i = do
    text ← follow (get_elem? context.motivo_desalojo.parametros 1)
    pcb ← ask (λ k. k.pcbs pid)
    file ← follow (get_elem? pcb.open_files_table i)
    set_files pid (set pcb.open_files_table i (record file { puntero = u32 (atoi text) }))
    pure true

  unfoldable pub execute_fseek : ℕ → PcontextoDesalojo → M Bool
  execute_fseek pid context = do
    name ← follow (get_elem? context.motivo_desalojo.parametros 0)
    with_open_file pid name (seek_at pid context)
