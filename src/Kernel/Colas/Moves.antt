-- ===== src/Kernel/Colas/Moves.antt =====
-- kernel/src/queue_controller.c: a move takes a PCB out of one queue and puts it at the end of another.
use tp_2023_1c_kernel_flow.Base.{
  ℕ, suc, ◌+◌, ◌<◌, ◌≡◌, inl, inr, ap, some, List, [], ◌∷◌, ◌++◌, ◌==◌, if◌then◌else◌, length,
  length-append, arith, map_inverse, subst, remove_at, occurrences, occurrences-append, Bool-cases,
  ==_iff,
}
use tp_2023_1c_kernel_flow.Kernel.Estado.{
  QueueId, q_new, q_ready, q_exec, q_block, q_exit, Queues, Kernel,
}
use tp_2023_1c_kernel_flow.Kernel.Colas.{
  get_queue, set_queue, get_pcb_index_from_queue, move_in_queues, move_pcb_from_to, get_queue_size,
}

-- How often a PCB stands in a queue, and in all of them.
abbrev pub in_queue : ℕ → QueueId → Queues → ℕ
in_queue pid id q = occurrences pid (get_queue id q)

abbrev pub in_all : ℕ → Queues → ℕ
in_all pid q =
    occurrences pid q.new
    + occurrences pid q.ready
    + occurrences pid q.exec
    + occurrences pid q.block
    + occurrences pid q.exit

-- The index found, and what is left without it.
index_lem :
    (pid : ℕ) (ps : List ℕ)
    → 0 < occurrences pid ps
    → (i : ℕ) × (get_pcb_index_from_queue pid ps ≡ some i)
      × ((other : ℕ)
          → occurrences other (remove_at ps i) + occurrences other (pid ∷ [])
            ≡ occurrences other ps)
      × (length (remove_at ps i) + 1 ≡ length ps)
unfolding get_pcb_index_from_queue
index_lem pid [] h = absurd (omega arith)
index_lem pid (p ∷ ps) h = elim (Bool-cases (p == pid)) [
  | inl same ↦
      let e : p ≡ pid = (==_iff p pid).0 same in
      (0, rw same, λ other. rw e (omega arith), omega arith)
  | inr differs ↦
      let (i, found, counts, sized) = index_lem pid ps (ground (arith, differs)) in
      (suc i, rw (differs, found), λ other. omega (arith, counts other), omega arith)
]

abbrev pub queue_number : QueueId → ℕ
queue_number q_new = 0
queue_number q_ready = 1
queue_number q_exec = 2
queue_number q_block = 3
queue_number q_exit = 4

abbrev pub same : QueueId → QueueId → ℕ → ℕ
same a b n = if queue_number a == queue_number b then n else 0

get-set :
    (id j : QueueId) (ps : List ℕ) (q : Queues)
    → get_queue id (set_queue j ps q)
      ≡ (if queue_number id == queue_number j then ps else get_queue id q)
unfolding get_queue set_queue
get-set id j ps q = ground arith

-- What a move changes: one PCB less in its source, one more in its destiny.
pub record Moved (pid : ℕ) (source destiny : QueueId) (q q' : Queues) : Type 0 where
  pub counts :
      (id : QueueId) (other : ℕ)
      → in_queue other id q' + same id source (occurrences other (pid ∷ []))
        ≡ in_queue other id q + same id destiny (occurrences other (pid ∷ []))
  pub sizes :
      (id : QueueId)
      → get_queue_size id q' + same id source 1 ≡ get_queue_size id q + same id destiny 1

pub move_lem :
    (pid : ℕ) (source destiny : QueueId) (q : Queues)
    → 0 < in_queue pid source q
    → (q' : Queues) × (move_in_queues pid source destiny q ≡ some q')
      × Moved pid source destiny q q'
unfolding move_in_queues get_queue_size
move_lem pid source destiny q h =
    let (i, found, counts, sized) = index_lem pid (get_queue source q) h in
    let taken = set_queue source (remove_at (get_queue source q) i) q in
    (
      set_queue destiny (get_queue destiny taken ++ pid ∷ []) taken,
      rw found,
      record {
        counts = λ id other.
            let counted = counts other in
            ground (
              arith,
              get-set id destiny (get_queue destiny taken ++ pid ∷ []) taken,
              get-set id source (remove_at (get_queue source q) i) q,
              get-set destiny source (remove_at (get_queue source q) i) q,
              occurrences-append other (get_queue destiny taken) (pid ∷ []),
            );
        sizes = λ id. ground (
          arith,
          sized,
          get-set id destiny (get_queue destiny taken ++ pid ∷ []) taken,
          get-set id source (remove_at (get_queue source q) i) q,
          get-set destiny source (remove_at (get_queue source q) i) q,
          length-append (get_queue destiny taken) (pid ∷ []),
        );
      },
    )

same_total :
    (s : QueueId) (n : ℕ)
    → same q_new s n + same q_ready s n + same q_exec s n + same q_block s n + same q_exit s n ≡ n
same_total q_new n = omega arith
same_total q_ready n = omega arith
same_total q_exec n = omega arith
same_total q_block n = omega arith
same_total q_exit n = omega arith

pub Moved-in_all :
    (pid other : ℕ) (source destiny : QueueId) (q q' : Queues)
    → Moved pid source destiny q q'
    → in_all other q' ≡ in_all other q
unfolding get_queue
Moved-in_all pid other source destiny q q' m = omega (
  arith,
  same_total source (occurrences other (pid ∷ [])),
  same_total destiny (occurrences other (pid ∷ [])),
  m.counts q_new other,
  m.counts q_ready other,
  m.counts q_exec other,
  m.counts q_block other,
  m.counts q_exit other,
)

-- A move of a PCB that is in its source succeeds.
pub move_pcb_lem :
    (pid : ℕ) (source destiny : QueueId) (k : Kernel)
    → 0 < in_queue pid source k.queues
    → (q : Queues) × (move_pcb_from_to pid source destiny k ≡ some (tt, record k { queues = q }))
      × Moved pid source destiny k.queues q
      × ((other : ℕ) → in_all other q ≡ in_all other k.queues)
unfolding move_pcb_from_to
move_pcb_lem pid source destiny k h =
    let (q, moved, m) = move_lem pid source destiny k.queues h in
    (q, rw moved, m, λ other. Moved-in_all pid other source destiny k.queues q m)

found_lem :
    (pid : ℕ) (ps : List ℕ) (i : ℕ)
    → get_pcb_index_from_queue pid ps ≡ some i
    → 0 < occurrences pid ps
unfolding get_pcb_index_from_queue
found_lem pid [] i e = absurd (cc e)
found_lem pid (p ∷ ps) i e = elim (Bool-cases (p == pid)) [
  | inl found ↦ ground (arith, found)
  | inr differs ↦
      let (j, found, _) = map_inverse suc (get_pcb_index_from_queue pid ps) i (rw differs at e) in
      ground (arith, found_lem pid ps j found)
]

-- A move that returns has found its PCB.
pub moved_lem :
    (pid : ℕ) (source destiny : QueueId) (k k' : Kernel)
    → move_pcb_from_to pid source destiny k ≡ some (tt, k')
    → Moved pid source destiny k.queues k'.queues
unfolding move_pcb_from_to move_in_queues
moved_lem pid source destiny k k' e =
    let (q', moved, same_queues) =
      map_inverse (λ q. (tt, record k { queues = q })) (move_in_queues pid source destiny k.queues)
        (tt, k') e in
    let (i, found, _) =
      map_inverse _ (get_pcb_index_from_queue pid (get_queue source k.queues)) q' moved in
    let (q, made, m) =
      move_lem pid source destiny k.queues (found_lem pid (get_queue source k.queues) i found) in
    let one : q ≡ k'.queues = cc (made, moved, ap (λ x. x.1.queues) same_queues) in
    subst (Moved pid source destiny k.queues) one m
