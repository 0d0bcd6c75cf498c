-- ===== src/Kernel/Procesos/Admision.antt =====
-- kernel/src/kernel_core.c: the loop that admits processes ends, and admits the first ones of NEW up to
-- the limit.
use tp_2023_1c_kernel_flow.Base.{
  ℕ, zero, suc, ◌+◌, ◌-◌, ◌<◌, ◌≡◌, ◌∙◌, refl, ap, sym, subst, arith, true, false, Bool-cases, inl,
  inr, some, List, [], ◌∷◌, ◌++◌, ◌==◌, length, take, drop, ltb, ◌&&◌, get_elem?, ◌⊎◌,
  length-append, append-nil, append_assoc,
}
use tp_2023_1c_kernel_flow.Wire.Types.{SegmentsTable, process_new}
use tp_2023_1c_kernel_flow.Wire.Package.{Package, op_number, tsegmentos}
use tp_2023_1c_kernel_flow.Wire.Communication.{get_tsegmento}
use tp_2023_1c_kernel_flow.Wire.Duplicados.{pid_status_create}
use tp_2023_1c_kernel_flow.Kernel.Estado.{
  q_new, q_ready, Queues, Kernel, ◌>>=◌, bind_runs, send, receive_from_memory, set_segments,
  set_pcb, update, to_memory_status, follow,
}
use tp_2023_1c_kernel_flow.Kernel.Colas.{
  get_queue, set_queue, get_queue_size, get_pcb_from, get_pcb_index_from_queue, move_in_queues,
  move_pcb_from_to,
}
use tp_2023_1c_kernel_flow.Kernel.Recursos.{Library}
use tp_2023_1c_kernel_flow.Kernel.Ciclo.{request_t_segment}
use tp_2023_1c_kernel_flow.Kernel.Nucleo.{
  get_actual_multiprog, accept_new_process_in_ready, can_move_new_to_ready, leave_new,
  move_first_new, move_new_to_ready,
}

-- The next answers of the memory are so many tables of segments.
abbrev pub Tables : ℕ → List Package → Type 0
Tables zero ps = Unit {0}
Tables (suc n) ps =
    (p : Package) × (rest : List Package) × (ps ≡ p ∷ rest)
    × (p.operation_code ≡ op_number tsegmentos)
    × (table : SegmentsTable) × (get_tsegmento p ≡ some table)
    × Tables n rest

-- The first `n` processes of NEW go to the end of READY.
abbrev pub admitted : ℕ → Queues → Queues
admitted n q = record q { new = drop n q.new; ready = q.ready ++ take n q.new }

module _ (lib : Library) (grado : ℕ) where
  first_moves :
      (pid : ℕ) (rest : List ℕ) (k : Kernel)
      → k.queues.new ≡ pid ∷ rest
      → move_pcb_from_to pid q_new q_ready k
        ≡ some (
          tt,
          record k { queues = record k.queues { new = rest; ready = k.queues.ready ++ pid ∷ [] } },
        )
  unfolding move_pcb_from_to move_in_queues get_queue set_queue get_pcb_index_from_queue
  first_moves pid rest k e = let same : (pid == pid) ≡ true = ground arith in rw e (rw same refl)

  request_lem :
      (pid : ℕ) (k : Kernel) (p : Package) (ps : List Package) (table : SegmentsTable)
      → k.from_memory ≡ p ∷ ps
      → p.operation_code ≡ op_number tsegmentos
      → get_tsegmento p ≡ some table
      → (k' : Kernel) × (request_t_segment pid k ≡ some (true, k'))
        × (k'.queues ≡ k.queues)
        × (k'.from_memory ≡ ps)
  unfolding request_t_segment send receive_from_memory set_segments set_pcb
  request_lem pid k p ps table e code decoded =
      let test : (p.operation_code == op_number tsegmentos) ≡ true = ground (arith, code) in
      (
        record k {
          sent = k.sent ++ to_memory_status (pid_status_create pid process_new) ∷ [];
          from_memory = ps;
          pcbs = update pid (record (k.pcbs pid) { segments_table = table }) k.pcbs;
        },
        rw (e, ◌>>=◌) (rw test (rw decoded refl)),
        refl,
        refl,
      )

  -- One pass, where NEW is not empty.
  pass_lem :
      (pid : ℕ) (rest : List ℕ) (n : ℕ) (k : Kernel)
      → k.queues.new ≡ pid ∷ rest
      → Tables (suc n) k.from_memory
      → (k' : Kernel) × (move_first_new lib grado k ≡ some (tt, k'))
        × (k'.queues ≡ record k.queues { new = rest; ready = k.queues.ready ++ pid ∷ [] })
        × Tables n k'.from_memory
  unfolding move_first_new leave_new get_pcb_from get_queue
  pass_lem pid rest n k e (p, ps, answers, code, table, decoded, more) =
      let (o, asked, same, left) = request_lem pid k p ps table answers code decoded in
      let e' : o.queues.new ≡ pid ∷ rest = rw same e in
      let moved = first_moves pid rest o e' in
      (
        record o { queues = record o.queues { new = rest; ready = o.queues.ready ++ pid ∷ [] } },
        bind_runs (follow (get_pcb_from q_new k.queues))
              (λ p. request_t_segment p >>= leave_new lib grado p) k k pid (head_lem k.queues.new e)
            ∙ bind_runs (request_t_segment pid) (leave_new lib grado pid) k o true asked
            ∙ moved,
        rw same refl,
        subst (Tables n) (sym left) more,
      )
    where
      head_lem : (new : List ℕ) → new ≡ pid ∷ rest → follow (get_elem? new 0) k ≡ some (pid, k)
      head_lem new e = rw e refl

  -- Where NEW is empty or the limit is reached, the loop ends.
  stop_lem :
      (fuel : ℕ) (k : Kernel)
      → can_move_new_to_ready lib grado k.queues ≡ false
      → move_new_to_ready lib grado (suc fuel) k ≡ some (tt, k)
  unfolding move_new_to_ready
  stop_lem fuel k cannot = rw cannot refl

  go_lem :
      (fuel : ℕ) (k o : Kernel)
      → can_move_new_to_ready lib grado k.queues ≡ true
      → move_first_new lib grado k ≡ some (tt, o)
      → move_new_to_ready lib grado (suc fuel) k ≡ move_new_to_ready lib grado fuel o
  unfolding move_new_to_ready
  go_lem fuel k o can moved = rw can (bind_runs (move_first_new lib grado) _ k o tt moved)

  taken_none :
      (n : ℕ) (xs ys : List ℕ) → (xs ≡ []) ⊎ (n ≡ 0) → (xs ≡ drop n xs) × (ys ≡ ys ++ take n xs)
  taken_none zero xs ys h = (refl, sym (append-nil ys))
  taken_none (suc n) [] ys h = (refl, sym (append-nil ys))
  taken_none (suc n) (x ∷ xs) ys (inl e) = absurd (cc e)
  taken_none (suc n) (x ∷ xs) ys (inr e) = absurd (omega (arith, e))

  admitted_none : (q : Queues) (n : ℕ) → (q.new ≡ []) ⊎ (n ≡ 0) → q ≡ admitted n q
  admitted_none q n h =
      let (left, joined) = taken_none n q.new q.ready h in
      ap (λ xs. record q { new = xs }) left
      ∙ ap (λ xs. record q { new = drop n q.new; ready = xs }) joined

  admitted_more :
      (q : Queues) (pid : ℕ) (rest : List ℕ) (n : ℕ)
      → q.new ≡ pid ∷ rest
      → admitted n (record q { new = rest; ready = q.ready ++ pid ∷ [] }) ≡ admitted (suc n) q
  admitted_more q pid rest n e =
      ap (λ xs. record q { new = drop n rest; ready = xs })
        (append_assoc q.ready (pid ∷ []) (take n rest))
      ∙ ap (λ xs. record q { new = drop (suc n) xs; ready = q.ready ++ take (suc n) xs }) (sym e)

  multiprog_more :
      (q : Queues) (pid : ℕ) (rest : List ℕ)
      → get_actual_multiprog (record q { new = rest; ready = q.ready ++ pid ∷ [] })
        ≡ get_actual_multiprog q + 1
  unfolding get_actual_multiprog get_queue_size get_queue
  multiprog_more q pid rest = omega (arith, length-append q.ready (pid ∷ []))

  can_lem :
      (q : Queues)
      → can_move_new_to_ready lib grado q
        ≡ (ltb 0 (length q.new) && ltb (get_actual_multiprog q) grado)
  unfolding can_move_new_to_ready accept_new_process_in_ready get_queue_size get_queue
  can_lem q = refl

  loop_lem :
      (fuel : ℕ) (new : List ℕ) (k : Kernel)
      → k.queues.new ≡ new
      → length new < fuel
      → Tables (length new) k.from_memory
      → (k' : Kernel) × (move_new_to_ready lib grado fuel k ≡ some (tt, k'))
        × (k'.queues ≡ admitted (grado - get_actual_multiprog k.queues) k.queues)
  loop_lem zero new k e enough tables = absurd (omega (arith, enough))
  loop_lem (suc fuel) [] k e enough tables =
      let cannot : can_move_new_to_ready lib grado k.queues ≡ false =
        can_lem k.queues ∙ rw e refl in
      (k, stop_lem fuel k cannot, admitted_none k.queues _ (inl e))
  loop_lem (suc fuel) (pid ∷ rest) k e enough tables =
      elim (Bool-cases (ltb (get_actual_multiprog k.queues) grado)) [
        | inr full ↦
            let cannot : can_move_new_to_ready lib grado k.queues ≡ false =
              can_lem k.queues ∙ ground (arith, full) in
            (k, stop_lem fuel k cannot, admitted_none k.queues _ (inr (ground (arith, full))))
        | inl room ↦
            let some_new : ltb 0 (length k.queues.new) ≡ true = rw e (ground arith) in
            let can : can_move_new_to_ready lib grado k.queues ≡ true =
              can_lem k.queues ∙ rw (some_new, room) refl in
            let (o, moved, queues, more) = pass_lem pid rest (length rest) k e tables in
            let next : o.queues.new ≡ rest = rw queues refl in
            let (k', done, last) = loop_lem fuel rest o next (omega (arith, enough)) more in
            let less : suc (grado - get_actual_multiprog o.queues)
                ≡ grado - get_actual_multiprog k.queues =
              rw queues (ground (arith, multiprog_more k.queues pid rest, room)) in
            (
              k',
              go_lem fuel k o can moved ∙ done,
              last
                  ∙ ap (admitted (grado - get_actual_multiprog o.queues)) queues
                  ∙ admitted_more k.queues pid rest (grado - get_actual_multiprog o.queues) e
                  ∙ ap (λ n. admitted n k.queues) less,
            )
      ]

  -- The memory answers each process of NEW with its table, and the fuel is more than the processes of
  -- NEW. The loop ends without a fault: the first processes of NEW, as many as the limit leaves room
  -- for, are at the end of READY in their order, and the other queues are as they were.
  pub move_new_to_ready_lem :
      (fuel : ℕ) (k : Kernel)
      → length k.queues.new < fuel
      → Tables (length k.queues.new) k.from_memory
      → (k' : Kernel) × (move_new_to_ready lib grado fuel k ≡ some (tt, k'))
        × (k'.queues ≡ admitted (grado - get_actual_multiprog k.queues) k.queues)
  move_new_to_ready_lem fuel k enough tables = loop_lem fuel k.queues.new k refl enough tables
