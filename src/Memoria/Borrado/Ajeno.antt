-- ===== src/Memoria/Borrado/Ajeno.antt =====
-- memoria/src/modulos.c and memoria/src/utils.c: `get_segment_by_id` looks for an id in the tables of
-- all processes, and DELETE_SEGMENT frees what it finds.
use tp_2023_1c_kernel_flow.Base.{
  ℕ, ◌<◌, ◌≤◌, ◌≡◌, ◌≢◌, ◌⊎◌, inl, inr, refl, Option, none, some, List, [], ◌∷◌, arith, bind,
  occurrences,
}
use tp_2023_1c_kernel_flow.Wire.Bytes.{u32}
use tp_2023_1c_kernel_flow.Wire.Types.{Segment}
use tp_2023_1c_kernel_flow.Memoria.Estado.{
  Table, Memoria, get_segment_by_id, get_segments_table_by_pid,
}
use tp_2023_1c_kernel_flow.Memoria.Datos.{Reply}
use tp_2023_1c_kernel_flow.Memoria.Segmentos.{create_segments_table}
use tp_2023_1c_kernel_flow.Memoria.Segmentos.Create.{IsMemoria}
use tp_2023_1c_kernel_flow.Memoria.Borrado.{
  load_segments, send_table, handle_delete_segment, handle_process_new,
}
use tp_2023_1c_kernel_flow.Memoria.Borrado.Segmento.{IsLive, Removes, delete_segment_lem}

dangling_faults :
    (heap : ℕ → Option Segment) (p : ℕ) (xs : List ℕ)
    → heap p ≡ none
    → 0 < occurrences p xs
    → load_segments heap xs ≡ none
unfolding load_segments
dangling_faults heap p [] freed found = elim found [ ]
dangling_faults heap p (x ∷ xs) freed found = elim (split x p) [
  | inl e ↦ let here : heap x ≡ none = rw e freed in rw here refl
  | inr ne ↦
      let later = dangling_faults heap p xs freed (ground (arith, found, ne)) in
      rw later (after (heap x))
]
  where
    split : (x p : ℕ) → (x ≡ p) ⊎ (x ≢ p)
    split x p = omega arith

    after : (o : Option Segment) → bind {B = List Segment} o (λ s. none) ≡ none
    after none = refl
    after (some s) = refl

send_faults :
    (pid p : ℕ) (m : Memoria) (t : Table)
    → get_segments_table_by_pid pid m.all_segments_tables ≡ some t
    → m.heap p ≡ none
    → 0 < occurrences p t.segment_list
    → handle_process_new pid m ≡ none
unfolding handle_process_new send_table create_segments_table
send_faults pid p m t known freed found =
    rw (known, create_segments_table)
      (rw (known, dangling_faults m.heap p t.segment_list freed found) refl)

-- Let `list_remove_element` take one occurrence of an element from a list, and let the segment that
-- is found by the id be one of another process. DELETE_SEGMENT of a process, whose table holds
-- pointers that are allocated and that segment once at most, is answered; the table of the other
-- process still holds the segment, which is freed, and the memory faults when it is to send that
-- table.
pub foreign_segment_freed :
    (remove : List ℕ → ℕ → List ℕ) (m : Memoria) (atoi : List ℕ → ℕ) (pid other p : ℕ) (id : List ℕ)
    (rest : List (List ℕ)) (s : Segment) (t u : Table)
    → Removes remove
    → IsMemoria m
    → p < m.fresh
    → m.heap p ≡ some s
    → get_segments_table_by_pid pid m.all_segments_tables ≡ some t
    → get_segments_table_by_pid other m.all_segments_tables ≡ some u
    → pid ≢ other
    → get_segment_by_id (u32 (atoi id)) m ≡ some (some p)
    → 0 < occurrences p u.segment_list
    → occurrences p t.segment_list ≤ 1
    → ((q : ℕ) → 0 < occurrences q t.segment_list → IsLive m q)
    → (reply : Reply) × (m' : Memoria) × (handle_delete_segment remove atoi pid (id ∷ rest) m
        ≡ some (reply, m'))
      × (get_segments_table_by_pid other m'.all_segments_tables ≡ some u)
      × (m'.heap p ≡ none)
      × (handle_process_new other m' ≡ none)
foreign_segment_freed remove m atoi pid other p id rest s t u removes h below there owned known ne
      found held once live =
    let (ss, m', answer, _, heap, _, _, keeps) =
      delete_segment_lem remove m atoi pid p id rest s t removes h below there owned found once
        live in
    let kept = keeps other u ne known in
    let freed : m'.heap p ≡ none = ground (arith, heap p) in
    (_, m', answer, kept, freed, send_faults other p m' u kept freed held)
