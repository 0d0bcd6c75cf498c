-- ===== src/Wire/Segments.antt =====
-- libs/src/package.c: segments, tables of segments and lists of tables, into a buffer and out of one.
pub mod RoundTrip
pub mod Tables
use mathlib.Core.Option
use tp_2023_1c_kernel_flow.Base.{
  ℕ, zero, suc, ◌+◌, ◌*◌, Option, none, some, List, [], ◌∷◌, ◌++◌, bind, length, map, drop,
}
use tp_2023_1c_kernel_flow.Wire.Bytes.{
  u32, Buffer, Reader, pure, lift, ◌>>=◌, u32_bytes, u32s_bytes, read_u32, read_u32s, read_block,
  copy_block,
}
use tp_2023_1c_kernel_flow.Wire.Types.{Segment, SegmentsTable}

-- The three copies of a segment, and the three reads.
unfoldable pub write_segment : Segment → List ℕ
write_segment s = u32_bytes s.id ++ (u32_bytes s.size ++ u32_bytes s.base_address)

unfoldable pub read_segment : Reader Segment
read_segment = do
  id ← read_u32
  size ← read_u32
  base ← read_u32
  pure (record { id = id; size = size; base_address = base })

unfoldable pub t_segment_create_buffer : Segment → Buffer
t_segment_create_buffer s = record { size = u32 (4 * 3); stream = write_segment s }

unfoldable pub t_segment_create_from_buffer : Buffer → ℕ → Option (Segment × ℕ)
t_segment_create_from_buffer b offset =
    Option.map (λ ((s, _) : Segment × List ℕ). (s, u32 (offset + 4 * 3)))
      (read_segment (drop offset b.stream))

unfoldable pub write_segments : List Segment → List ℕ
write_segments [] = []
write_segments (s ∷ ss) = write_segment s ++ write_segments ss

unfoldable pub t_segments_table_create_buffer : SegmentsTable → Buffer
t_segments_table_create_buffer t =
    let cant_segmentos = u32 (length t.segment_list) in
    record {
      size = u32 (4 * 2 + cant_segmentos * 4 * 3);
      stream = u32_bytes t.pid ++ (u32_bytes cant_segmentos ++ write_segments t.segment_list);
    }

unfoldable pub read_segments : ℕ → Reader (List Segment)
read_segments zero = pure []
read_segments (suc n) = read_segment >>= λ s. read_segments n >>= λ ss. pure (s ∷ ss)

unfoldable pub read_segments_table : Reader SegmentsTable
read_segments_table = do
  pid ← read_u32
  cant_segmentos ← read_u32
  segments ← read_segments cant_segmentos
  pure (record { pid = pid; segment_list = segments })

-- `offset_aux` grows by four with each of the reads.
unfoldable pub t_segments_table_create_from_buffer : Buffer → ℕ → Option (SegmentsTable × ℕ)
t_segments_table_create_from_buffer b offset =
    Option.map
      (λ ((t, _) : SegmentsTable × List ℕ).
        (t, u32 (offset + (4 + 4 + length t.segment_list * (4 + 4 + 4)))))
      (read_segments_table (drop offset b.stream))

-- The three loops of `t_lista_t_segments_create_buffer`: total size, sizes, contents.
unfoldable pub tables_size_from : ℕ → List SegmentsTable → ℕ
tables_size_from total [] = total
tables_size_from total (t ∷ ts) =
    tables_size_from (u32 (total + (t_segments_table_create_buffer t).size)) ts

unfoldable pub table_sizes : List SegmentsTable → List ℕ
table_sizes ts = map (λ t. (t_segments_table_create_buffer t).size) ts

unfoldable pub tables_stream : List SegmentsTable → Option (List ℕ)
tables_stream [] = some []
tables_stream (t ∷ ts) =
    let b = t_segments_table_create_buffer t in
    bind (copy_block b.size b.stream) λ bytes. Option.map (λ rest. bytes ++ rest) (tables_stream ts)

unfoldable pub t_lista_t_segments_create_buffer : List SegmentsTable → Option Buffer
t_lista_t_segments_create_buffer ts =
    Option.map
      (λ bytes. record {
        size = u32 (4 + 4 * length ts + tables_size_from 0 ts);
        stream = u32_bytes (u32 (length ts)) ++ (u32s_bytes (table_sizes ts) ++ bytes);
      })
      (tables_stream ts)

-- Each table is read from a buffer of its own, with the size announced for it.
unfoldable pub read_tables : List ℕ → Reader (List SegmentsTable)
read_tables [] = pure []
read_tables (size ∷ sizes) = do
  bytes ← read_block size
  (t, _) ← lift (t_segments_table_create_from_buffer (record { size = size; stream = bytes }) 0)
  ts ← read_tables sizes
  pure (t ∷ ts)

unfoldable pub read_lista : Reader (List SegmentsTable)
read_lista = do cant_list ← read_u32; sizes ← read_u32s cant_list; read_tables sizes

unfoldable pub t_lista_t_segments_create_from_buffer : Buffer → Option (List SegmentsTable)
t_lista_t_segments_create_from_buffer b =
    Option.map (λ ((ts, _) : List SegmentsTable × List ℕ). ts) (read_lista b.stream)
