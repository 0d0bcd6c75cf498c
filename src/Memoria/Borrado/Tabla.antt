-- ===== src/Memoria/Borrado/Tabla.antt =====
-- memoria/src/segmentos.c and memoria/src/modulos.c: the end of a process.
use tp_2023_1c_kernel_flow.Base.{
  ℕ, ◌<◌, ◌≤◌, ◌≡◌, refl, sym, subst, drop, none, some, List, [], ◌∷◌, arith, ltb, if◌then◌else◌,
  occurrences,
}
use tp_2023_1c_kernel_flow.Wire.Types.{Segment}
use tp_2023_1c_kernel_flow.Memoria.Estado.{Table, Memoria, get_segments_table_by_pid}
use tp_2023_1c_kernel_flow.Memoria.Segmentos.{free}
use tp_2023_1c_kernel_flow.Memoria.Segmentos.Create.{IsMemoria}
use tp_2023_1c_kernel_flow.Memoria.Borrado.{release_each, delete_segments_table, handle_process_end}
use tp_2023_1c_kernel_flow.Memoria.Borrado.Segmento.{
  IsLive, released, release-IsMemoria, heap-released,
}

-- Pointers that are allocated, each once in the list.
pub record AllLive (m : Memoria) (ps : List ℕ) : Type 0 where
  pub live : (q : ℕ) → 0 < occurrences q ps → IsLive m q
  pub once : (q : ℕ) → occurrences q ps ≤ 1

-- The state in which the segments of a list are freed, and nothing else is.
pub record IsReleased (m : Memoria) (ps : List ℕ) (m' : Memoria) : Type 0 where
  pub memoria : IsMemoria m'
  pub heap : (q : ℕ) → m'.heap q ≡ (if ltb 0 (occurrences q ps) then none else m.heap q)
  pub tables : m'.all_segments_tables ≡ m.all_segments_tables
  pub space : m'.memory_space ≡ m.memory_space

rest-AllLive :
    (m : Memoria) (p : ℕ) (s : Segment) (ps : List ℕ)
    → AllLive m (p ∷ ps)
    → AllLive (released p s m) ps
unfolding free
rest-AllLive m p s ps all = record {
  live = λ q found.
      let (low, s', e) = all.live q (ground (arith, found)) in
      (low, s', ground (arith, heap-released m p q s, e, all.once q, found));
  once = λ q. ground (arith, all.once q);
}

released_then :
    (m m' : Memoria) (p : ℕ) (s : Segment) (ps : List ℕ)
    → IsReleased (released p s m) ps m'
    → IsReleased m (p ∷ ps) m'
unfolding free
released_then m m' p s ps done = record {
  memoria = done.memoria;
  heap = λ q. ground (arith, done.heap q, heap-released m p q s);
  tables = done.tables;
  space = done.space;
}

pub release_each_lem :
    (ps : List ℕ) (m : Memoria)
    → IsMemoria m
    → AllLive m ps
    → (m' : Memoria) × (release_each ps m ≡ some m') × IsReleased m ps m'
unfolding release_each
release_each_lem [] m h all =
    (m, refl, record { memoria = h; heap = λ q. refl; tables = refl; space = refl })
release_each_lem (p ∷ ps) m h all =
    let (below, s, there) = all.live p (ground arith) in
    let (runs, ok) = release-IsMemoria m p s h below there in
    let (m', rest, done) = release_each_lem ps (released p s m) ok (rest-AllLive m p s ps all) in
    (m', rw runs rest, released_then m m' p s ps done)

-- For a process with a table whose first pointer is segment 0, and whose others are allocated,
-- differ, and do not hold segment 0: its end frees exactly those, the table is taken from the list
-- of tables, the bytes are as before, and the set bits are again those of the allocated segments.
pub process_end_lem :
    (remove : List Table → Table → List Table) (m : Memoria) (pid : ℕ) (ps : List ℕ) (t : Table)
    → IsMemoria m
    → get_segments_table_by_pid pid m.all_segments_tables ≡ some t
    → t.segment_list ≡ m.segment_0 ∷ ps
    → AllLive m ps
    → occurrences m.segment_0 ps ≡ 0
    → (m' : Memoria) × (handle_process_end remove pid m ≡ some m')
      × IsMemoria m'
      × ((q : ℕ) → m'.heap q ≡ (if ltb 0 (occurrences q ps) then none else m.heap q))
      × (m'.heap m.segment_0 ≡ m.heap m.segment_0)
      × (m'.all_segments_tables ≡ remove m.all_segments_tables t)
      × (m'.memory_space ≡ m.memory_space)
unfolding handle_process_end delete_segments_table
process_end_lem remove m pid ps t h owned list all spared =
    let start = record m { all_segments_tables = remove m.all_segments_tables t } in
    let (m', runs, done) = release_each_lem ps start (record { exact = h.exact }) all' in
    (
      m',
      rw owned (subst (λ xs. release_each (drop 1 xs) start ≡ some m') (sym list) runs),
      done.memoria,
      done.heap,
      ground (arith, done.heap m.segment_0, spared),
      done.tables,
      done.space,
    )
  where
    all' : AllLive (record m { all_segments_tables = remove m.all_segments_tables t }) ps
    all' = record { live = all.live; once = all.once }
