-- ===== src/Wire/Segments/Tables.antt =====
-- libs/src/package.c: the layout of a list of tables of segments, and reading it back.
use tp_2023_1c_kernel_flow.Base.{
  ℕ, ◌+◌, ◌*◌, ◌<◌, ◌≡◌, refl, some, List, [], ◌∷◌, ◌++◌, arith, length, length-append, subst,
}
use tp_2023_1c_kernel_flow.Wire.Bytes.{
  packed, u32, u32_max, Buffer, Reads, Reads-pure, Reads-bind, Reads-last, lift-Reads, Reads-all,
  read_u32s, u32_bytes, u32s_bytes, read_u32-Reads, read_u32s-Reads, read_block-Reads,
  copy_block_self, length-u32_bytes, length-u32s_bytes, AllBelow,
}
use tp_2023_1c_kernel_flow.Wire.Types.{SegmentsTable}
use tp_2023_1c_kernel_flow.Wire.Segments.{
  tables_size_from, table_sizes, tables_stream, t_lista_t_segments_create_buffer, read_tables,
  read_lista, t_lista_t_segments_create_from_buffer,
}
use tp_2023_1c_kernel_flow.Wire.Segments.RoundTrip.{
  TableFits, layout_table, segments_table_create_buffer_lem, segments_table_whole,
}

abbrev pub AllTablesFit : List SegmentsTable → Type 0
AllTablesFit [] = Unit
AllTablesFit (t ∷ ts) = TableFits t × AllTablesFit ts

abbrev pub layout_tables : List SegmentsTable → List ℕ
layout_tables [] = []
layout_tables (t ∷ ts) = layout_table t ++ layout_tables ts

abbrev pub layout_sizes : List SegmentsTable → List ℕ
layout_sizes [] = []
layout_sizes (t ∷ ts) = length (layout_table t) ∷ layout_sizes ts

-- The count, the sizes, the tables.
abbrev pub layout_lista : List SegmentsTable → List ℕ
layout_lista ts = u32_bytes (length ts) ++ (u32s_bytes (layout_sizes ts) ++ layout_tables ts)

table_sizes_lem : (ts : List SegmentsTable) → AllTablesFit ts → table_sizes ts ≡ layout_sizes ts
unfolding table_sizes
table_sizes_lem [] f = refl
table_sizes_lem (t ∷ ts) f = rw (segments_table_create_buffer_lem t f.0, table_sizes_lem ts f.1)

tables_size_lem :
    (ts : List SegmentsTable) (total : ℕ)
    → AllTablesFit ts
    → total + length (layout_tables ts) < u32_max
    → tables_size_from total ts ≡ total + length (layout_tables ts)
unfolding tables_size_from
tables_size_lem [] total f h = omega arith
tables_size_lem (t ∷ ts) total f h =
    let both = length-append (layout_table t) (layout_tables ts) in
    let e : u32 (total + length (layout_table t)) ≡ total + length (layout_table t) = omega arith in
    rw (segments_table_create_buffer_lem t f.0, e, tables_size_from)
      (omega (arith, tables_size_lem ts (total + length (layout_table t)) f.1 (omega arith)))

tables_stream_lem :
    (ts : List SegmentsTable) → AllTablesFit ts → tables_stream ts ≡ some (layout_tables ts)
unfolding tables_stream
tables_stream_lem [] f = refl
tables_stream_lem (t ∷ ts) f = rw (
  segments_table_create_buffer_lem t f.0,
  copy_block_self (layout_table t),
  tables_stream_lem ts f.1,
)

length-layout_sizes : (ts : List SegmentsTable) → length (layout_sizes ts) ≡ length ts
length-layout_sizes [] = refl
length-layout_sizes (t ∷ ts) = omega (arith, length-layout_sizes ts)

length-layout_lista :
    (ts : List SegmentsTable)
    → length (layout_lista ts) ≡ 4 + 4 * length ts + length (layout_tables ts)
length-layout_lista ts =
    simp (length-append, length-u32_bytes, length-u32s_bytes, length-layout_sizes) (omega arith)

layout_sizes_fit :
    (ts : List SegmentsTable)
    → length (layout_tables ts) < u32_max
    → AllBelow u32_max (layout_sizes ts)
layout_sizes_fit [] h = tt
layout_sizes_fit (t ∷ ts) h =
    let both = length-append (layout_table t) (layout_tables ts) in
    (omega arith, layout_sizes_fit ts (omega arith))

read_tables-Reads :
    (ts : List SegmentsTable)
    → AllTablesFit ts
    → Reads (read_tables (layout_sizes ts)) (layout_tables ts) ts
unfolding read_tables
read_tables-Reads [] f = Reads-pure []
read_tables-Reads (t ∷ ts) f =
    Reads-bind _ (read_block-Reads (length (layout_table t)) (layout_table t) refl) (
      Reads-bind _ (lift-Reads (segments_table_whole t f.0))
        (Reads-last _ (read_tables-Reads ts f.1)))

module _ (ts : List SegmentsTable) (f : AllTablesFit ts)
    (h : length (layout_lista ts) < u32_max) where
  lista_create_buffer_lem : t_lista_t_segments_create_buffer ts ≡ some (packed (layout_lista ts))
  unfolding t_lista_t_segments_create_buffer
  lista_create_buffer_lem =
      let counted : u32 (length ts) ≡ length ts = omega (arith, h, length-layout_lista ts) in
      let sized : u32 (4 + 4 * length ts + tables_size_from 0 ts) ≡ length (layout_lista ts) =
        omega (
          arith,
          h,
          length-layout_lista ts,
          tables_size_lem ts 0 f (omega (arith, h, length-layout_lista ts)),
        ) in
      rw (tables_stream_lem ts f, sized, counted, table_sizes_lem ts f)

  read_lista-Reads : Reads read_lista (layout_lista ts) ts
  unfolding read_lista
  read_lista-Reads =
      Reads-bind _ (read_u32-Reads (length ts) (omega (arith, h, length-layout_lista ts)))
        (Reads-bind _ read_sizes (read_tables-Reads ts f))
    where
      read_sizes : Reads (read_u32s (length ts)) (u32s_bytes (layout_sizes ts)) (layout_sizes ts)
      read_sizes =
          subst (λ n. Reads (read_u32s n) (u32s_bytes (layout_sizes ts)) (layout_sizes ts))
            (length-layout_sizes ts)
            (read_u32s-Reads (layout_sizes ts)
              (layout_sizes_fit ts (omega (arith, h, length-layout_lista ts))))

  lista_create_from_buffer_lem :
      t_lista_t_segments_create_from_buffer (packed (layout_lista ts)) ≡ some ts
  unfolding t_lista_t_segments_create_from_buffer
  lista_create_from_buffer_lem = rw (Reads-all (read_lista-Reads))

-- A list of tables that fit, of less than 2^32 bytes in all, is encoded in a buffer that is filled
-- exactly, and decoded from it to the same list.
pub lista_t_segments_round_trip :
    (ts : List SegmentsTable)
    → AllTablesFit ts
    → length (layout_lista ts) < u32_max
    → (b : Buffer) × (t_lista_t_segments_create_buffer ts ≡ some b)
      × (b.size ≡ length b.stream)
      × (t_lista_t_segments_create_from_buffer b ≡ some ts)
lista_t_segments_round_trip ts f h = (
  packed (layout_lista ts),
  lista_create_buffer_lem ts f h,
  refl,
  lista_create_from_buffer_lem ts f h,
)
