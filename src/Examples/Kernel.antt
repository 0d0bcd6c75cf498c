-- ===== src/Examples/Kernel.antt =====
-- The kernel at concrete states.
use tp_2023_1c_kernel_flow.Base.{
  ℕ, ◌≤◌, ◌≡◌, ◌⊎◌, inl, inr, refl, subst, arith, Bool, true, false, Option, none, some, List, [],
  ◌∷◌, ◌==◌, length, pos, negsuc, neg_part, if◌then◌else◌,
}
use tp_2023_1c_kernel_flow.Wire.Types.{PcontextoDesalojo, success, i_wait}
use tp_2023_1c_kernel_flow.Wire.Duplicados.{registers_create}
use tp_2023_1c_kernel_flow.Kernel.Estado.{q_ready, q_block, Queues, Recurso, Pcb, Kernel, update}
use tp_2023_1c_kernel_flow.Kernel.Colas.{get_queue}
use tp_2023_1c_kernel_flow.Kernel.Colas.Moves.{in_queue, in_all}
use tp_2023_1c_kernel_flow.Kernel.Recursos.{Library}
use tp_2023_1c_kernel_flow.Kernel.Recursos.Waiting.{waiting, stored_lem}
use tp_2023_1c_kernel_flow.Kernel.Recursos.Busqueda.{AreAllocated}
use tp_2023_1c_kernel_flow.Kernel.Recursos.Semaphore.{IsKernel}

-- A library: texts are equal as they are written, and a list loses its first such element.
abbrev pub same_text : List ℕ → List ℕ → Bool
same_text [] [] = true
same_text [] (_ ∷ _) = false
same_text (_ ∷ _) [] = false
same_text (x ∷ xs) (y ∷ ys) = if x == y then same_text xs ys else false

abbrev pub without : List ℕ → ℕ → List ℕ
without [] x = []
without (y ∷ ys) x = if y == x then ys else y ∷ without ys x

abbrev pub lib : Library
lib = record {
  atoi = λ text. 0;
  sprintf_u = λ n. n ∷ 0 ∷ [];
  string_duplicate = λ text. text;
  string_equals_ignore_case = same_text;
  list_remove_element = without;
}

abbrev pub pcb : Pcb
pcb = record {
  instrucciones = [];
  program_counter = 0;
  registers = registers_create;
  segments_table = record { pid = 1; segment_list = [] };
  open_files_table = record { archivo = 1; puntero = 0 } ∷ [];
  shared_resources = 0 ∷ [];
  exit_status = success;
  next_queue = q_ready;
}

-- The resource R has one instance out, and process 2 waits for it; process 1 has the file F open.
abbrev pub disk : Recurso
disk = record { recurso = 82 ∷ 0 ∷ []; instancias = negsuc 0; lista_bloqueados = 2 ∷ [] }

abbrev pub file : Recurso
file = record { recurso = 70 ∷ 0 ∷ []; instancias = pos 0; lista_bloqueados = [] }

abbrev pub nothing : ℕ → Option Recurso
nothing p = none

abbrev pub kernel_with : Queues → Kernel
kernel_with q = record {
  queues = q;
  pcbs = λ pid. pcb;
  heap = update 1 (some file) (update 0 (some disk) nothing);
  fresh = 2;
  all_pcb = 1 ∷ 2 ∷ [];
  recursos = 0 ∷ [];
  archivos_abiertos = 1 ∷ [];
  threads = [];
  sent = [];
  compactation_flag = false;
  fs_blocked = false;
  end_program_flag = false;
  from_filesystem = [];
  from_memory = [];
}

-- Process 1 runs, or has ended, while process 2 is blocked.
abbrev pub running : Kernel
running = kernel_with (record { new = []; ready = []; exec = 1 ∷ []; block = 2 ∷ []; exit = [] })

abbrev pub ended : Kernel
ended = kernel_with (record { new = []; ready = []; exec = []; block = 2 ∷ []; exit = 1 ∷ [] })

pointer_lem :
    (o : ℕ) (x : Recurso)
    → running.heap o ≡ some x
    → ((1 ≡ o) × (file ≡ x)) ⊎ ((0 ≡ o) × (disk ≡ x))
pointer_lem o x e = elim (stored_lem (update 0 (some disk) nothing) 1 o file x e) [
  | inl found ↦ inl found
  | inr below ↦ elim (stored_lem nothing 0 o disk x below) [
    | inl found ↦ inr found
    | inr missing ↦ absurd (cc missing)
  ]
]

heap_lem :
    (q : Queues)
    → ((pid : ℕ) → waiting running.heap 2 pid ≤ in_queue pid q_block q)
    → ((pid : ℕ) → in_all pid q ≤ 1)
    → IsKernel (kernel_with q)
heap_lem q blocked once = record {
  balanced = λ o x e. elim (pointer_lem o x e) [
    | inl (_, same) ↦ subst (λ y. length y.lista_bloqueados ≡ neg_part y.instancias) same refl
    | inr (_, same) ↦ subst (λ y. length y.lista_bloqueados ≡ neg_part y.instancias) same refl
  ];
  allocated = λ o x e. elim (pointer_lem o x e) [
    | inl (same, _) ↦ omega (arith, same)
    | inr (same, _) ↦ omega (arith, same)
  ];
  blocked = blocked;
  once = once;
}

pub running-IsKernel : IsKernel running
unfolding update get_queue
running-IsKernel = heap_lem running.queues (λ pid. ground arith) (λ pid. ground arith)

pub ended-IsKernel : IsKernel ended
unfolding update get_queue
ended-IsKernel = heap_lem ended.queues (λ pid. ground arith) (λ pid. ground arith)

disk_found : running.heap 0 ≡ some disk
unfolding update
disk_found = refl

file_found : running.heap 1 ≡ some file
unfolding update
file_found = refl

pub recursos_lem : AreAllocated running.heap (0 ∷ [])
recursos_lem p found =
    (disk, subst (λ o. running.heap o ≡ some disk) (ground (arith, found)) disk_found)

pub files_lem : AreAllocated running.heap (1 ∷ [])
files_lem p found =
    (file, subst (λ o. running.heap o ≡ some file) (ground (arith, found)) file_found)

-- WAIT or SIGNAL of R, as the CPU sends it.
abbrev pub context : PcontextoDesalojo
context = record {
  pid = 1;
  instructions = [];
  program_counter = 0;
  registers = registers_create;
  motivo_desalojo = record {
    identificador = i_wait;
    cant_parametros = 1;
    p_length = 2 ∷ 0 ∷ 0 ∷ 0 ∷ [];
    parametros = (82 ∷ 0 ∷ []) ∷ [];
  };
  status_code = success;
}
