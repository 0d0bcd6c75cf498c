-- ===== src/Kernel/Recursos/Signal.antt =====
-- kernel/src/kernel_instructions.c: SIGNAL.
use tp_2023_1c_kernel_flow.Base.{
  ℕ, zero, suc, ◌<◌, ◌≡◌, ◌⊎◌, inl, inr, refl, Bool, true, false, Option, some, List, [], ◌∷◌,
  length, arith, occurrences, ℤ, pos, negsuc, increment, neg_part, is_positive,
}
use tp_2023_1c_kernel_flow.Kernel.Estado.{
  q_block, q_ready, Queues, Recurso, Kernel, update, ◌>>=◌, ◌>>◌, follow, save,
}
use tp_2023_1c_kernel_flow.Kernel.Colas.Moves.{in_queue, in_all, Moved, move_pcb_lem}
use tp_2023_1c_kernel_flow.Kernel.Recursos.{
  remove_pcb_from_queue_resourse, wake_first, give_instance, Library,
}
use tp_2023_1c_kernel_flow.Kernel.Recursos.Waiting.{waits_in, waits_le}
use tp_2023_1c_kernel_flow.Kernel.Recursos.Semaphore.{IsKernel, load_lem}

pub waits_for :
    (ps : List ℕ) (n : ℕ) → length ps ≡ suc n → (first : ℕ) × (rest : List ℕ) × (ps ≡ first ∷ rest)
waits_for [] n h = absurd (omega (arith, h))
waits_for (first ∷ rest) n h = (first, rest, refl)

pub none_waits : (ps : List ℕ) → length ps ≡ 0 → ps ≡ []
none_waits [] h = refl
none_waits (p ∷ ps) h = absurd (omega (arith, h))

pub increment_lem :
    (i : ℤ) (n : ℕ)
    → n ≡ neg_part i
    → ((is_positive (increment i) ≡ true) × (n ≡ neg_part (increment i)) × (n ≡ 0))
      ⊎ ((is_positive (increment i) ≡ false) × (n ≡ suc (neg_part (increment i))))
increment_lem (pos i) n h = inl (refl, h, h)
increment_lem (negsuc zero) n h = inr (refl, h)
increment_lem (negsuc (suc i)) n h = inr (refl, h)

-- The resource with one instance more, and without the first of its list.
abbrev pub given : Recurso → Recurso
given r = record r { instancias = increment r.instancias }

abbrev pub woken : Recurso → List ℕ → Recurso
woken r rest = record (given r) { lista_bloqueados = rest }

remove_pcb_lem :
    (k : Kernel) (p : ℕ) (r : Recurso) (pid : ℕ) (ps : List ℕ)
    → k.heap p ≡ some r
    → r.lista_bloqueados ≡ pid ∷ ps
    → remove_pcb_from_queue_resourse p k
      ≡ some (pid, record k { heap = update p (some (record r { lista_bloqueados = ps })) k.heap })
unfolding remove_pcb_from_queue_resourse save
remove_pcb_lem k p r pid ps here waits = rw (load_lem k p r here, ◌>>=◌, waits, follow, ◌>>◌, waits)

pub wake_first_lem :
    (k : Kernel) (p : ℕ) (r : Recurso) (pid : ℕ) (ps : List ℕ)
    → k.heap p ≡ some r
    → r.lista_bloqueados ≡ pid ∷ ps
    → 0 < in_queue pid q_block k.queues
    → (q : Queues) × (wake_first p k
        ≡ some (
          tt,
          record k {
            queues = q;
            heap = update p (some (record r { lista_bloqueados = ps })) k.heap;
          },
        ))
      × Moved pid q_block q_ready k.queues q
      × ((other : ℕ) → in_all other q ≡ in_all other k.queues)
unfolding wake_first
wake_first_lem k p r pid ps here waits blocked =
    let k' = record k { heap = update p (some (record r { lista_bloqueados = ps })) k.heap } in
    let (q, moved, m, all) = move_pcb_lem pid q_block q_ready k' blocked in
    (q, rw (remove_pcb_lem k p r pid ps here waits, ◌>>=◌, moved), m, all)

module _ (lib : Library) (k : Kernel) (pid p : ℕ) (r : Recurso) (s : IsKernel k)
    (here : k.heap p ≡ some r) where
  abbrev given_kernel : Kernel
  given_kernel = record k {
    heap = update p (some (given r)) k.heap;
    pcbs =
        update pid
          (record (k.pcbs pid) {
            shared_resources = lib.list_remove_element (k.pcbs pid).shared_resources p;
          })
          k.pcbs;
  }

  pub give_instance_lem :
      give_instance p k
      ≡ some (increment r.instancias, record k { heap = update p (some (given r)) k.heap })
  unfolding give_instance save
  give_instance_lem = rw (load_lem k p r here, ◌>>=◌)

  pub first_blocked :
      (first : ℕ) (rest : List ℕ)
      → r.lista_bloqueados ≡ first ∷ rest
      → 0 < in_queue first q_block k.queues
  first_blocked first rest e =
      let waits : waits_in first (k.heap p) ≡ occurrences first (first ∷ rest) =
        rw (here, e) refl in
      ground (arith, waits, s.blocked first, waits_le k.heap k.fresh p first (s.allocated p r here))

-- Nobody waits, or the first that waits moves from the blocked processes to the ready ones.
abbrev pub IsGiven : Kernel → Recurso → Option (Bool × Kernel) → Type 0
IsGiven k r answer =
    ((k' : Kernel) × (answer ≡ some (true, k'))
      × (r.lista_bloqueados ≡ [])
      × (k'.queues ≡ k.queues)
      × IsKernel k')
    ⊎ ((k' : Kernel) × (first : ℕ) × (rest : List ℕ) × (answer ≡ some (true, k'))
        × (r.lista_bloqueados ≡ first ∷ rest)
        × Moved first q_block q_ready k.queues k'.queues
        × IsKernel k')
