-- ===== src/Kernel/Estado.antt =====
-- kernel/include/kernel_structs.h and libs/include/types.h: the state of the kernel. A PCB is created
-- once for its pid and is never freed while the kernel runs, so its pid stands for the pointer to
-- it. A t_recurso, a shared resource or an open file, lives in a heap: `none` where it was destroyed.
-- An operation answers `none` for a fault: a pointer that is NULL or was freed, or an index that is
-- not in the list.
use tp_2023_1c_kernel_flow.Base.{
  ◌≡◌, ℕ, Bool, Option, none, some, List, [], ◌∷◌, ◌++◌, ◌==◌, if◌then◌else◌, ℤ,
}
use tp_2023_1c_kernel_flow.Wire.Types.{
  Instruccion, StatusCode, Registers, SegmentsTable, Pcontexto, PidInstruccion, PidStatus,
}
use tp_2023_1c_kernel_flow.Wire.Package.{Package}

-- t_queue_id.
pub data QueueId : Type 0 where
  q_new q_ready q_exec q_block q_exit : QueueId

-- t_queues: the pids of the PCBs.
pub record Queues : Type 0 where
  pub new : List ℕ
  pub ready : List ℕ
  pub exec : List ℕ
  pub block : List ℕ
  pub exit : List ℕ

-- t_recurso.
pub record Recurso : Type 0 where
  pub recurso : List ℕ
  pub instancias : ℤ
  pub lista_bloqueados : List ℕ

-- t_archivo_abierto, with the pointer to its file.
pub record ArchivoAbierto : Type 0 where
  pub archivo : ℕ
  pub puntero : ℕ

-- t_pcb, without the times that the planner reads.
pub record Pcb : Type 0 where
  pub instrucciones : List Instruccion
  pub program_counter : ℕ
  pub registers : Registers
  pub segments_table : SegmentsTable
  pub open_files_table : List ArchivoAbierto
  pub shared_resources : List ℕ
  pub exit_status : StatusCode
  pub next_queue : QueueId

-- A thread that was started and has not ended: `io`, or `file_processing` with its argument.
pub data Thread : Type 0 where
  io_thread : ℕ → Thread
  file_thread : ℕ → Instruccion → StatusCode → Thread

-- What was sent, to which module.
pub data Message : Type 0 where
  to_cpu : Pcontexto → Message
  to_filesystem : Instruccion → Message
  to_memory : PidInstruccion → Message
  to_memory_status : PidStatus → Message
  to_memory_compactar : Message

pub record Kernel : Type 0 where
  pub queues : Queues
  pub pcbs : ℕ → Pcb
  pub heap : ℕ → Option Recurso
  -- The pointer that the next `malloc` of a t_recurso returns.
  pub fresh : ℕ
  pub all_pcb : List ℕ
  pub recursos : List ℕ
  pub archivos_abiertos : List ℕ
  pub threads : List Thread
  pub sent : List Message
  pub compactation_flag : Bool
  pub fs_blocked : Bool
  pub end_program_flag : Bool
  -- The packages that each module is still to answer; the ones of the CPU are an argument of EXEC.
  pub from_filesystem : List Package
  pub from_memory : List Package

abbrev pub M : Type 0 → Type 0
M A = Kernel → Option (A × Kernel)

abbrev pub pure : {A : Type 0} → A → M A
pure a k = some (a, k)

infixl 5 ◌>>=◌ ◌>>◌
abbrev pub ◌>>=◌ : {A B : Type 0} → M A → (A → M B) → M B
◌>>=◌ m f k = elim (m k) [ none ↦ none | some (a, k') ↦ f a k' ]

abbrev pub ◌>>◌ : {B : Type 0} → M (Unit {0}) → M B → M B
m >> n = m >>= λ _. n

-- What is read of the state.
abbrev pub ask : {A : Type 0} → (Kernel → A) → M A
ask f k = some (f k, k)

-- A pointer that may be NULL, where it is followed.
abbrev pub follow : {A : Type 0} → Option A → M A
follow none k = none
follow (some a) k = some (a, k)

-- A test for NULL.
unfoldable pub if_null : {A B : Type 0} → Option A → M B → (A → M B) → M B
if_null none m f = m
if_null (some a) m f = f a

unfoldable pub update : {A : Type 0} → ℕ → A → (ℕ → A) → ℕ → A
update p v f q = if q == p then v else f q

-- A field of the PCB.
unfoldable pub set_pcb : ℕ → Pcb → M (Unit {0})
set_pcb pid pcb k = some (tt, record k { pcbs = update pid pcb k.pcbs })

unfoldable pub set_next_queue : ℕ → QueueId → M (Unit {0})
unfolding set_pcb
set_next_queue pid q k = set_pcb pid (record (k.pcbs pid) { next_queue = q }) k

-- The process is to end, with a status.
unfoldable pub set_exit : ℕ → StatusCode → M (Unit {0})
unfolding set_pcb
set_exit pid code k =
    set_pcb pid (record (k.pcbs pid) { exit_status = code; next_queue = q_exit }) k

unfoldable pub load : ℕ → M Recurso
load p k = follow (k.heap p) k

unfoldable pub save : ℕ → Option Recurso → M (Unit {0})
save p r k = some (tt, record k { heap = update p r k.heap })

unfoldable pub send : Message → M (Unit {0})
send message k = some (tt, record k { sent = k.sent ++ message ∷ [] })

unfoldable pub start_thread : Thread → M (Unit {0})
start_thread thread k = some (tt, record k { threads = k.threads ++ thread ∷ [] })

unfoldable pub set_status : ℕ → StatusCode → M (Unit {0})
unfolding set_pcb
set_status pid code k = set_pcb pid (record (k.pcbs pid) { exit_status = code }) k

unfoldable pub set_segments : ℕ → SegmentsTable → M (Unit {0})
unfolding set_pcb
set_segments pid table k = set_pcb pid (record (k.pcbs pid) { segments_table = table }) k

unfoldable pub set_files : ℕ → List ArchivoAbierto → M (Unit {0})
unfolding set_pcb
set_files pid files k = set_pcb pid (record (k.pcbs pid) { open_files_table = files }) k

-- `get_package`: the next answer of a module. With no answer the call waits, and it has no result.
unfoldable pub receive_from_filesystem : M Package
receive_from_filesystem k = elim k.from_filesystem [
  | [] ↦ none
  | p ∷ rest ↦ some (p, record k { from_filesystem = rest })
]

unfoldable pub receive_from_memory : M Package
receive_from_memory k = elim k.from_memory [
  | [] ↦ none
  | p ∷ rest ↦ some (p, record k { from_memory = rest })
]

-- What follows a part that returned.
pub bind_runs :
    {A B : Type 0} (m : M A) (f : A → M B) (k o : Kernel) (a : A)
    → m k ≡ some (a, o)
    → (m >>= f) k ≡ f a o
bind_runs m f k o a e = rw (◌>>=◌, e)
