-- ===== src/Kernel/Procesos/Nucleo.antt =====
-- kernel/src/kernel_core.c, and the threads of the kernel as one step relation: each operation goes by
-- the state machine of the processes.
use tp_2023_1c_kernel_flow.Base.{
  ℕ, zero, suc, ◌+◌, ◌<◌, ◌≤◌, ◌≡◌, refl, subst, arith, Bool, true, false, Bool-cases, inl, inr,
  Option, none, some, List, [], ◌∷◌, ◌++◌, length, occurrences,
}
use tp_2023_1c_kernel_flow.Wire.Types.{error}
use tp_2023_1c_kernel_flow.Wire.Package.{Package}
use tp_2023_1c_kernel_flow.Kernel.Estado.{
  QueueId, q_new, q_ready, q_exec, q_block, q_exit, Pcb, Queues, Kernel, update, pure, ◌>>◌, follow,
  if_null, set_pcb, set_status,
}
use tp_2023_1c_kernel_flow.Kernel.Colas.{
  get_queue, set_queue, get_queue_size, is_queue_empty, get_pcb_from, move_pcb_from_to,
  move_fist_from_to, add_pcb_to_queue,
}
use tp_2023_1c_kernel_flow.Kernel.Colas.Moves.{same, Moved, moved_lem, in_all}
use tp_2023_1c_kernel_flow.Kernel.Recursos.{Library}
use tp_2023_1c_kernel_flow.Kernel.Ciclo.{request_t_segment, exec_first}
use tp_2023_1c_kernel_flow.Kernel.Nucleo.{
  get_actual_multiprog, can_execute_process, apply_planner_algorithm, accept_new_process_in_ready,
  can_move_new_to_ready, leave_new, move_first_new, move_new_to_ready, execute_first_ready,
  move_ready_to_exec, add_pcb, process_instrucciones,
}
use tp_2023_1c_kernel_flow.Kernel.Procesos.{
  Run, stay, next, enter, admit, refuse, order, dispatch, leave, wake, abort, once-Run, join_runs,
}
use tp_2023_1c_kernel_flow.Kernel.Procesos.Pasos.{
  Effect, follow-Does, if_null-Does, pure-Does, bind_inverse,
}
use tp_2023_1c_kernel_flow.Kernel.Procesos.Pasos.Instrucciones.{set_status-Does}
use tp_2023_1c_kernel_flow.Kernel.Procesos.Pasos.Ciclo.{request_t_segment-Does, exec_first-Does}
use tp_2023_1c_kernel_flow.Kernel.Procesos.Pasos.Salida.{exit_process-Does}

-- A run of the state machine.
abbrev pub life : ℕ → Effect
life grado = record {
  relation = Run grado;
  stays = stay;
  joins = join_runs grado;
  wakes = λ pid q q' m. once-Run grado q q' (wake pid q q' m);
  aborts = λ pid q q' m. once-Run grado q q' (abort pid q q' m);
}

pub Moved-calm :
    (pid : ℕ) (id : QueueId) (q q' : Queues)
    → Moved pid q_block id q q'
    → same q_ready id 1 + same q_exec id 1 + same q_block id 1 ≤ 1
    → same q_new id 1 ≡ 0
    → (get_actual_multiprog q' ≤ get_actual_multiprog q)
      × (get_queue_size q_new q' ≡ get_queue_size q_new q)
unfolding get_actual_multiprog
Moved-calm pid id q q' m one none_new = (
  omega (arith, one, m.sizes q_ready, m.sizes q_exec, m.sizes q_block),
  omega (arith, none_new, m.sizes q_new),
)

-- No process enters, and no place is taken.
abbrev pub calm : Effect
calm = record {
  relation = λ q q'.
      (get_actual_multiprog q' ≤ get_actual_multiprog q)
      × (get_queue_size q_new q' ≡ get_queue_size q_new q);
  stays = λ q. (omega arith, refl);
  joins = λ q q' q'' (a, b) (c, d). (omega (arith, a, c), omega (arith, b, d));
  wakes = λ pid q q' m. Moved-calm pid q_ready q q' m (omega arith) (omega arith);
  aborts = λ pid q q' m. Moved-calm pid q_exit q q' m (omega arith) (omega arith);
}

module _ (lib : Library) (grado : ℕ) where
  leave_new-Run :
      (pid : ℕ) (created : Bool) (k k' : Kernel)
      → get_actual_multiprog k.queues < grado
      → leave_new lib grado pid created k ≡ some (tt, k')
      → Run grado k.queues k'.queues
  unfolding leave_new
  leave_new-Run pid true k k' free e =
      once-Run grado k.queues k'.queues
        (admit pid k.queues k'.queues free (moved_lem pid q_new q_ready k k' e))
  leave_new-Run pid false k k' free e =
      let (tt, o, moved, rest) = bind_inverse (move_pcb_from_to pid q_new q_exit k) _ k' tt e in
      let (tt, o', set, ended) = bind_inverse (set_status pid error o) _ k' tt rest in
      next k.queues o.queues k'.queues
        (refuse pid k.queues o.queues (moved_lem pid q_new q_exit k o moved))
        (join_runs grado o.queues o'.queues k'.queues
          ((set_status-Does (life grado) pid error).run o o' tt set)
          ((exit_process-Does (life grado) lib pid).run o' k' tt ended))

  move_first_new-Run :
      (k k' : Kernel)
      → get_actual_multiprog k.queues < grado
      → move_first_new lib grado k ≡ some (tt, k')
      → Run grado k.queues k'.queues
  unfolding move_first_new
  move_first_new-Run k k' free e =
      let (pid, o, found, rest) = bind_inverse (follow (get_pcb_from q_new k.queues) k) _ k' tt e in
      let (created, o', asked, left) = bind_inverse (request_t_segment pid o) _ k' tt rest in
      let (calm_found, _) = (follow-Does calm (get_pcb_from q_new k.queues)).run k o pid found in
      let (calm_asked, _) = (request_t_segment-Does calm pid).run o o' created asked in
      join_runs grado k.queues o.queues k'.queues
        ((follow-Does (life grado) (get_pcb_from q_new k.queues)).run k o pid found)
        (join_runs grado o.queues o'.queues k'.queues
          ((request_t_segment-Does (life grado) pid).run o o' created asked)
          (leave_new-Run pid created o' k' (omega (arith, free, calm_found, calm_asked)) left))

  pub move_new_to_ready-Run :
      (fuel : ℕ) (k k' : Kernel)
      → move_new_to_ready lib grado fuel k ≡ some (tt, k')
      → Run grado k.queues k'.queues
  unfolding move_new_to_ready can_move_new_to_ready accept_new_process_in_ready
  move_new_to_ready-Run zero k k' e = absurd (cc e)
  move_new_to_ready-Run (suc fuel) k k' e =
      elim (Bool-cases (can_move_new_to_ready lib grado k.queues)) [
        | inl can ↦
            let (tt, o, moved, rest) =
              bind_inverse (move_first_new lib grado k) (λ _. move_new_to_ready lib grado fuel) k'
                tt (rw can at e) in
            join_runs grado k.queues o.queues k'.queues
              (move_first_new-Run k o (ground (arith, can)) moved)
              (move_new_to_ready-Run fuel o k' rest)
        | inr cannot ↦
            let same : k ≡ k' = cc (rw cannot at e) in
            subst (λ o. Run grado k.queues o.queues) same (stay k.queues)
      ]

  pub process_instrucciones-Run :
      (fuel pid : ℕ) (pcb : Pcb) (k k' : Kernel)
      → in_all pid k.queues ≡ 0
      → process_instrucciones lib grado fuel pid pcb k ≡ some (tt, k')
      → Run grado k.queues k'.queues
  unfolding process_instrucciones set_pcb add_pcb add_pcb_to_queue accept_new_process_in_ready
  process_instrucciones-Run fuel pid pcb k k' absent e =
      let q = set_queue q_new (get_queue q_new k.queues ++ pid ∷ []) k.queues in
      let arrived : Kernel = record k {
        pcbs = update pid pcb k.pcbs;
        all_pcb = k.all_pcb ++ pid ∷ [];
        queues = q;
      } in
      next k.queues q k'.queues (enter pid k.queues absent)
        (elim (Bool-cases (accept_new_process_in_ready lib grado k.queues)) [
          | inl accepted ↦ move_new_to_ready-Run fuel arrived k' (rw accepted at e)
          | inr full ↦
              let same : arrived ≡ k' = cc (rw full at e) in
              subst (λ o. Run grado q o.queues) same (stay q)
        ])

  module _ (plan : List ℕ → List ℕ)
      (permutes : (ps : List ℕ) (pid : ℕ) → occurrences pid (plan ps) ≡ occurrences pid ps)
      (keeps : (ps : List ℕ) → length (plan ps) ≡ length ps) where
    sized :
        (id : QueueId) (q : Queues)
        → get_queue_size id (set_queue q_ready (plan (get_queue q_ready q)) q) ≡ get_queue_size id q
    unfolding get_queue_size set_queue get_queue
    sized q_new q = refl
    sized q_ready q = keeps q.ready
    sized q_exec q = refl
    sized q_block q = refl
    sized q_exit q = refl

    leaving : (pid : ℕ) (id : QueueId) (q q' : Queues) → Moved pid q_exec id q q' → Run grado q q'
    leaving pid id q q' m = once-Run grado q q' (leave pid id q q' m)

    plan-Run : (q : Queues) → Run grado q (set_queue q_ready (plan (get_queue q_ready q)) q)
    unfolding set_queue get_queue
    plan-Run q =
        let q' = set_queue q_ready (plan (get_queue q_ready q)) q in
        once-Run grado q q' (
          order q q' (record {
            counted = λ pid. omega (arith, permutes q.ready pid);
            sized = λ id. sized id q;
          }))

    dispatched-Run :
        (o : Option ℕ) (k k' : Kernel) (found : Option ℕ)
        → get_queue_size q_exec k.queues ≡ 0
        → if_null o (pure none) (λ pid. move_pcb_from_to pid q_ready q_exec >> pure (some pid)) k
          ≡ some (found, k')
        → Run grado k.queues k'.queues
    unfolding if_null
    dispatched-Run none k k' found idle e =
        let same : k ≡ k' = cc e in subst (λ o. Run grado k.queues o.queues) same (stay k.queues)
    dispatched-Run (some pid) k k' found idle e =
        let (tt, o, moved, rest) =
          bind_inverse (move_pcb_from_to pid q_ready q_exec k) (λ _. pure (some pid)) k' found e in
        let same : o ≡ k' = cc rest in
        subst (λ o. Run grado k.queues o.queues) same
          (once-Run grado k.queues o.queues
            (dispatch pid k.queues o.queues idle (moved_lem pid q_ready q_exec k o moved)))

    execute_first_ready-Run :
        (packages rest : List Package) (k k' : Kernel)
        → get_queue_size q_exec k.queues ≡ 0
        → execute_first_ready lib grado plan packages k ≡ some (rest, k')
        → Run grado k.queues k'.queues
    unfolding execute_first_ready apply_planner_algorithm move_fist_from_to set_queue get_queue_size
        get_queue
    execute_first_ready-Run packages rest k k' idle e =
        let q = set_queue q_ready (plan (get_queue q_ready k.queues)) k.queues in
        let planned = record k { queues = q } in
        let (found, o, moved, ran) =
          bind_inverse (move_fist_from_to q_ready q_exec planned)
            (λ to_execute. if_null to_execute (pure packages) (λ pid. exec_first lib packages)) k'
            rest e in
        join_runs grado k.queues q k'.queues (plan-Run k.queues) (
          join_runs grado q o.queues k'.queues
            (dispatched-Run (get_pcb_from q_ready q) planned o found idle moved)
            ((if_null-Does (life grado) found (pure-Does (life grado) packages)
                (λ pid. exec_first-Does (life grado) lib leaving packages)).run
              o k' rest ran))

    pub move_ready_to_exec-Run :
        (packages rest : List Package) (k k' : Kernel)
        → move_ready_to_exec lib grado plan packages k ≡ some (rest, k')
        → Run grado k.queues k'.queues
    unfolding move_ready_to_exec can_execute_process is_queue_empty
    move_ready_to_exec-Run packages rest k k' e = elim (Bool-cases (can_execute_process k.queues)) [
      | inl can ↦ execute_first_ready-Run packages rest k k' (ground (arith, can)) (rw can at e)
      | inr cannot ↦
          let same : k ≡ k' = cc (rw cannot at e) in
          subst (λ o. Run grado k.queues o.queues) same (stay k.queues)
    ]
