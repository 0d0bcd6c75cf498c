-- ===== src/Memoria/Borrado/Segmento.antt =====
-- memoria/src/modulos.c: DELETE_SEGMENT and PROCESS_END.
use tp_2023_1c_kernel_flow.Base.{
  ℕ, ◌-◌, ◌<◌, ◌≤◌, ◌≡◌, ◌≢◌, refl, true, false, none, some, List, [], ◌∷◌, arith, ◌==◌,
  if◌then◌else◌, occurrences,
}
use tp_2023_1c_kernel_flow.Wire.Bytes.{u32}
use tp_2023_1c_kernel_flow.Wire.Types.{Segment}
use tp_2023_1c_kernel_flow.Memoria.Espacio.{bitarray_clean_from_and_how_many}
use tp_2023_1c_kernel_flow.Memoria.Espacio.Regions.{clean-IsExact}
use tp_2023_1c_kernel_flow.Memoria.Estado.{
  Table, Memoria, get_segment_by_id, get_segments_table_by_pid,
}
use tp_2023_1c_kernel_flow.Memoria.Datos.{table_reply}
use tp_2023_1c_kernel_flow.Memoria.Segmentos.{free}
use tp_2023_1c_kernel_flow.Memoria.Segmentos.Create.{IsMemoria}
use tp_2023_1c_kernel_flow.Memoria.Segmentos.Live.{get-store, take_out-IsExact}
use tp_2023_1c_kernel_flow.Memoria.Borrado.{
  load_segments, send_table, release_segment, remove_from_table, delete_segment,
  handle_delete_segment,
}

-- The state after a segment is given back.
abbrev pub released : ℕ → Segment → Memoria → Memoria
released p s m = free p (record m {
  free_space_table = bitarray_clean_from_and_how_many m.free_space_table s.base_address s.size;
})

-- A pointer that is allocated.
abbrev pub IsLive : Memoria → ℕ → Type 0
IsLive m p = (p < m.fresh) × (s : Segment) × (m.heap p ≡ some s)

pub release-IsMemoria :
    (m : Memoria) (p : ℕ) (s : Segment)
    → IsMemoria m
    → p < m.fresh
    → m.heap p ≡ some s
    → (release_segment p m ≡ some (released p s m)) × IsMemoria (released p s m)
unfolding release_segment free
release-IsMemoria m p s h below there = (
  rw there refl,
  record {
    exact =
        clean-IsExact m.free_space_table _ s.base_address s.size
          (take_out-IsExact m.free_space_table m.fresh p m.heap s below there h.exact);
  },
)

pub heap-released :
    (m : Memoria) (p q : ℕ) (s : Segment)
    → (released p s m).heap q ≡ (if q == p then none else m.heap q)
unfolding free
heap-released m p q s = get-store p q none m.heap

-- The tables of the other processes are as they were.
abbrev pub KeepsTables : ℕ → Memoria → Memoria → Type 0
KeepsTables pid m m' =
    (other : ℕ) (u : Table)
    → pid ≢ other
    → get_segments_table_by_pid other m.all_segments_tables ≡ some u
    → get_segments_table_by_pid other m'.all_segments_tables ≡ some u

-- Every pointer of a list but one is allocated.
abbrev pub LiveBut : ℕ → Memoria → List ℕ → Type 0
LiveBut p m xs = (q : ℕ) → 0 < occurrences q xs → q ≢ p → IsLive m q

pub load_segments_lem :
    (m : Memoria) (p : ℕ) (xs : List ℕ)
    → occurrences p xs ≡ 0
    → LiveBut p m xs
    → (ss : List Segment) × (load_segments m.heap xs ≡ some ss)
unfolding load_segments
load_segments_lem m p [] absent live = ([], refl)
load_segments_lem m p (x ∷ xs) absent live =
    let other : x ≢ p = λ e. ground (arith, absent, e) in
    let (_, s, there) = live x (ground arith) other in
    let (ss, rest) =
      load_segments_lem m p xs (omega (arith, absent))
        (λ q found ne. live q (omega (arith, found)) ne) in
    (s ∷ ss, rw (there, rest) refl)

module _ (remove : List ℕ → ℕ → List ℕ) where
  -- What the commons library says of `list_remove_element`: one occurrence goes, if there is one.
  abbrev pub Removes : Type 0
  Removes =
      (xs : List ℕ) (a b : ℕ)
      → occurrences b (remove xs a) ≡ occurrences b xs - (if a == b then 1 else 0)

  pub get-remove_from_table :
      (pid other p : ℕ) (ts : List Table) (t : Table)
      → get_segments_table_by_pid other ts ≡ some t
      → get_segments_table_by_pid other (remove_from_table remove pid p ts)
        ≡ some (if pid == other then record t { segment_list = remove t.segment_list p } else t)
  unfolding get_segments_table_by_pid remove_from_table
  get-remove_from_table pid other p [] t found = absurd (cc found)
  get-remove_from_table pid other p (x ∷ xs) t found =
      ground (arith, get-remove_from_table pid other p xs t)

  -- The state after a segment is taken from the table of a process.
  abbrev pub deleted : ℕ → ℕ → Segment → Memoria → Memoria
  deleted pid p s m = record (released p s m) {
    all_segments_tables = remove_from_table remove pid p m.all_segments_tables;
  }

  module _ (m : Memoria) (pid p : ℕ) (s : Segment) (t : Table) (h : IsMemoria m)
      (below : p < m.fresh) (there : m.heap p ≡ some s)
      (owned : get_segments_table_by_pid pid m.all_segments_tables ≡ some t) where
    pub delete_segment_runs : delete_segment remove pid p m ≡ some (deleted pid p s m)
    unfolding delete_segment
    delete_segment_runs = rw (owned, (release-IsMemoria m p s h below there).0) refl

    pub deleted-IsMemoria : IsMemoria (deleted pid p s m)
    unfolding free
    deleted-IsMemoria = record { exact = (release-IsMemoria m p s h below there).1.exact }

    pub heap-deleted : (q : ℕ) → (deleted pid p s m).heap q ≡ (if q == p then none else m.heap q)
    unfolding free
    heap-deleted q = heap-released m p q s

    pub table-deleted :
        get_segments_table_by_pid pid (deleted pid p s m).all_segments_tables
        ≡ some (record t { segment_list = remove t.segment_list p })
    table-deleted =
        let same : (pid == pid) ≡ true = ground arith in
        rw (get-remove_from_table pid pid p m.all_segments_tables t owned, same) refl

    live-deleted :
        Removes
        → ((q : ℕ) → 0 < occurrences q t.segment_list → IsLive m q)
        → LiveBut p (deleted pid p s m) (remove t.segment_list p)
    unfolding free
    live-deleted removes live q found ne =
        let (low, s', e) = live q (omega (arith, removes t.segment_list p q, found)) in
        (low, s', ground (arith, heap-deleted q, e, ne))

pub delete_segment_lem :
    (remove : List ℕ → ℕ → List ℕ) (m : Memoria) (atoi : List ℕ → ℕ) (pid p : ℕ) (id : List ℕ)
    (rest : List (List ℕ)) (s : Segment) (t : Table)
    → Removes remove
    → IsMemoria m
    → p < m.fresh
    → m.heap p ≡ some s
    → get_segments_table_by_pid pid m.all_segments_tables ≡ some t
    → get_segment_by_id (u32 (atoi id)) m ≡ some (some p)
    → occurrences p t.segment_list ≤ 1
    → ((q : ℕ) → 0 < occurrences q t.segment_list → IsLive m q)
    → (ss : List Segment) × (m' : Memoria) × (handle_delete_segment remove atoi pid (id ∷ rest) m
        ≡ some (table_reply (record { pid = t.pid; segment_list = ss }), m'))
      × IsMemoria m'
      × ((q : ℕ) → m'.heap q ≡ (if q == p then none else m.heap q))
      × (get_segments_table_by_pid pid m'.all_segments_tables
          ≡ some (record t { segment_list = remove t.segment_list p }))
      × (occurrences p (remove t.segment_list p) ≡ 0)
      × KeepsTables pid m m'
unfolding handle_delete_segment send_table
delete_segment_lem remove m atoi pid p id rest s t removes h below there owned found once live =
    let gone : occurrences p (remove t.segment_list p) ≡ 0 =
      ground (arith, removes t.segment_list p p, once) in
    let kept = live-deleted remove m pid p s t h below there owned removes live in
    let (ss, loaded) =
      load_segments_lem (deleted remove pid p s m) p (remove t.segment_list p) gone kept in
    let table = table-deleted remove m pid p s t h below there owned in
    (
      ss,
      deleted remove pid p s m,
      rw (found, delete_segment_runs remove m pid p s t h below there owned) (rw (table, loaded)),
      deleted-IsMemoria remove m pid p s t h below there owned,
      heap-deleted remove m pid p s t h below there owned,
      table,
      gone,
      λ other u ne known.
          let distinct : (pid == other) ≡ false = ground arith in
          rw (get-remove_from_table remove pid other p m.all_segments_tables u known, distinct)
            refl,
    )
