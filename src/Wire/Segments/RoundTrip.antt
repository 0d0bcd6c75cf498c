-- ===== src/Wire/Segments/RoundTrip.antt =====
-- libs/src/package.c: the layout of a table of segments, and reading it back.
use tp_2023_1c_kernel_flow.Base.{
  ℕ, ◌+◌, ◌*◌, ◌<◌, ◌≡◌, refl, sym, some, List, [], ◌∷◌, ◌++◌, append-nil, zero-add, arith, length,
  length-append, drop-append,
}
use tp_2023_1c_kernel_flow.Wire.Bytes.{
  u32, u32_max, Reads, Reads-pure, Reads-bind, Reads-last, u32_bytes, read_u32-Reads,
  length-u32_bytes, packed,
}
use tp_2023_1c_kernel_flow.Wire.Types.{Segment, SegmentsTable}
use tp_2023_1c_kernel_flow.Wire.Segments.{
  write_segment, read_segment, t_segment_create_buffer, t_segment_create_from_buffer,
  write_segments, t_segments_table_create_buffer, read_segments, read_segments_table,
  t_segments_table_create_from_buffer,
}

pub record SegmentFits (s : Segment) : Type 0 where
  pub id_fits : s.id < u32_max
  pub size_fits : s.size < u32_max
  pub base_fits : s.base_address < u32_max

abbrev pub AllSegmentsFit : List Segment → Type 0
AllSegmentsFit [] = Unit
AllSegmentsFit (s ∷ ss) = SegmentFits s × AllSegmentsFit ss

pub record TableFits (t : SegmentsTable) : Type 0 where
  pub pid_fits : t.pid < u32_max
  pub segments_fit : AllSegmentsFit t.segment_list
  pub total_fits : 8 + 12 * length t.segment_list < u32_max

abbrev pub layout_table : SegmentsTable → List ℕ
layout_table t =
    u32_bytes t.pid ++ (u32_bytes (length t.segment_list) ++ write_segments t.segment_list)

read_segment-Reads : (s : Segment) → SegmentFits s → Reads read_segment (write_segment s) s
unfolding read_segment write_segment
read_segment-Reads s f = Reads-bind _ (read_u32-Reads s.id f.id_fits) (
    Reads-bind _ (read_u32-Reads s.size f.size_fits)
      (Reads-last _ (read_u32-Reads s.base_address f.base_fits)))

length-write_segment : (s : Segment) → length (write_segment s) ≡ 12
unfolding write_segment
length-write_segment s = simp (length-append, length-u32_bytes)

length-write_segments : (ss : List Segment) → length (write_segments ss) ≡ 12 * length ss
unfolding write_segments
length-write_segments [] = refl
length-write_segments (s ∷ ss) =
    simp (length-append, length-write_segment, length-write_segments ss) (omega arith)

read_segments-Reads :
    (ss : List Segment)
    → AllSegmentsFit ss
    → Reads (read_segments (length ss)) (write_segments ss) ss
unfolding read_segments write_segments
read_segments-Reads [] f = Reads-pure []
read_segments-Reads (s ∷ ss) f =
    Reads-bind _ (read_segment-Reads s f.0) (Reads-last _ (read_segments-Reads ss f.1))

-- A segment whose numbers fit in a uint32_t is encoded in a buffer that is filled exactly, and is
-- decoded from those bytes wherever they stand in a stream; the offset moves by its twelve bytes,
-- if it stays below 2^32.
pub segment_round_trip :
    (s : Segment) (before after : List ℕ) (size : ℕ)
    → SegmentFits s
    → length before + 12 < u32_max
    → ((t_segment_create_buffer s).size ≡ length (t_segment_create_buffer s).stream)
      × (t_segment_create_from_buffer
            (record {
              size = size;
              stream = before ++ ((t_segment_create_buffer s).stream ++ after);
            })
            (length before)
          ≡ some (s, length before + 12))
unfolding t_segment_create_buffer t_segment_create_from_buffer
segment_round_trip s before after size f h =
    let moved : u32 (length before + 4 * 3) ≡ length before + 12 = omega arith in
    (
      sym (length-write_segment s),
      rw (drop-append before (write_segment s ++ after), (read_segment-Reads s f).apply after)
          (rw moved),
    )

module _ (t : SegmentsTable) (f : TableFits t) where
  pub length-layout : length (layout_table t) ≡ 8 + 12 * length t.segment_list
  length-layout = simp (length-append, length-u32_bytes, length-write_segments) (omega arith)

  pub segments_table_create_buffer_lem : t_segments_table_create_buffer t ≡ packed (layout_table t)
  unfolding t_segments_table_create_buffer
  segments_table_create_buffer_lem =
      let counted : u32 (length t.segment_list) ≡ length t.segment_list =
        omega (arith, f.total_fits) in
      let sized : u32 (4 * 2 + length t.segment_list * 4 * 3) ≡ length (layout_table t) =
        omega (arith, f.total_fits, length-layout) in
      rw counted (rw sized)

  pub read_segments_table-Reads : Reads read_segments_table (layout_table t) t
  unfolding read_segments_table
  read_segments_table-Reads = Reads-bind _ (read_u32-Reads t.pid f.pid_fits) (
      Reads-bind _ (read_u32-Reads (length t.segment_list) (omega (arith, f.total_fits)))
        (Reads-last _ (read_segments-Reads t.segment_list f.segments_fit)))

-- Read back at its offset, between any two other pieces of a message.
pub segments_table_create_from_buffer_lem :
    (t : SegmentsTable) (size : ℕ) (before after : List ℕ)
    → TableFits t
    → length before + length (layout_table t) < u32_max
    → t_segments_table_create_from_buffer
        (record { size = size; stream = before ++ (layout_table t ++ after) })
        (length before)
      ≡ some (t, length before + length (layout_table t))
unfolding t_segments_table_create_from_buffer
segments_table_create_from_buffer_lem t size before after f h =
    let moved : u32 (length before + (4 + 4 + length t.segment_list * (4 + 4 + 4)))
        ≡ length before + length (layout_table t) =
      omega (arith, length-layout t f) in
    rw (drop-append before (layout_table t ++ after), (read_segments_table-Reads t f).apply after)
      (rw moved)

pub segments_table_whole :
    (t : SegmentsTable)
    → TableFits t
    → t_segments_table_create_from_buffer (packed (layout_table t)) 0
      ≡ some (t, length (layout_table t))
segments_table_whole t f =
    simp (append-nil, zero-add, zero-add) at
      (segments_table_create_from_buffer_lem t (length (layout_table t)) [] [] f
        (omega (arith, length-layout t f, f.total_fits)))

-- A table whose numbers and total size fit in a uint32_t is encoded in a buffer that is filled
-- exactly, and decoded from it to the same table; the offset ends at the size of the buffer.
pub segments_table_round_trip :
    (t : SegmentsTable)
    → TableFits t
    → ((t_segments_table_create_buffer t).size ≡ length (t_segments_table_create_buffer t).stream)
      × (t_segments_table_create_from_buffer (t_segments_table_create_buffer t) 0
          ≡ some (t, (t_segments_table_create_buffer t).size))
segments_table_round_trip t f =
    rw (segments_table_create_buffer_lem t f) (refl, segments_table_whole t f)
