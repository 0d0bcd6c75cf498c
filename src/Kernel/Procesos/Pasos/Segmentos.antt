-- ===== src/Kernel/Procesos/Pasos/Segmentos.antt =====
-- kernel/src/kernel_instructions.c: the instructions on segments leave the queues as they are.
use tp_2023_1c_kernel_flow.Base.{ℕ, zero, suc, refl, Bool, true, false, List, [], ◌∷◌, ◌==◌}
use tp_2023_1c_kernel_flow.Wire.Types.{
  out_of_memory, compactation_required, error, PcontextoDesalojo, Instruccion, SegmentsTable,
  Segment,
}
use tp_2023_1c_kernel_flow.Wire.Package.{Package, op_number, segmento}
use tp_2023_1c_kernel_flow.Kernel.Estado.{M}
use tp_2023_1c_kernel_flow.Wire.Communication.{get_status_code, get_segment}
use tp_2023_1c_kernel_flow.Kernel.Archivos.{is_code}
use tp_2023_1c_kernel_flow.Kernel.Segmentos.{
  actualizar_tabla, actualizar_tablas, set_compactation, set_end_program, compacted, compactar,
  add_segment, segment_answer, to_memory_from, execute_create_segment, execute_delete_segment,
}
use tp_2023_1c_kernel_flow.Kernel.Procesos.Pasos.{
  Effect, Does, step_rules, change-Does, at-Does, pure-Does, none-Does, bind-Does, if-Does,
  follow-Does,
}
use tp_2023_1c_kernel_flow.Kernel.Procesos.Pasos.Instrucciones.{
  set_segments-Does, send-Does, receive_from_memory-Does,
}
use tp_2023_1c_kernel_flow.Kernel.Procesos.Pasos.Archivos.{fail_with-Does}

module _ (eff : Effect) where
  pub actualizar_tabla-Does : (table : SegmentsTable) → Does eff (actualizar_tabla table)
  unfolding actualizar_tabla
  actualizar_tabla-Does table = search (step_rules, set_segments-Does)

  pub actualizar_tablas-Does : (tables : List SegmentsTable) → Does eff (actualizar_tablas tables)
  unfolding actualizar_tablas
  actualizar_tablas-Does [] = pure-Does eff tt
  actualizar_tablas-Does (table ∷ rest) =
      bind-Does eff (actualizar_tabla-Does table) λ _. actualizar_tablas-Does rest

  pub set_compactation-Does : (a b : Bool) → Does eff (set_compactation a b)
  unfolding set_compactation
  set_compactation-Does a b = change-Does eff tt _ λ k. refl

  pub set_end_program-Does : Does eff set_end_program
  unfolding set_end_program
  set_end_program-Does = change-Does eff tt _ λ k. refl

  pub compacted-Does : (p : Package) → Does eff (compacted p)
  unfolding compacted
  compacted-Does p = search (step_rules, actualizar_tablas-Does, set_end_program-Does)

  pub compactar-Does : Does eff compactar
  unfolding compactar
  compactar-Does =
      search
        (step_rules, set_compactation-Does, send-Does, receive_from_memory-Does, compacted-Does)

  pub add_segment-Does : (pid : ℕ) (s : Segment) → Does eff (add_segment pid s)
  unfolding add_segment
  add_segment-Does pid s = at-Does eff λ k. set_segments-Does eff pid _

  pub segment_answer-Does :
      (again : M Bool) (pid : ℕ) (p : Package)
      → Does eff again
      → Does eff (segment_answer again pid p)
  unfolding segment_answer
  segment_answer-Does again pid p h =
      if-Does eff _
        (bind-Does eff (follow-Does eff (get_status_code p)) λ code.
          if-Does eff (is_code code out_of_memory) (fail_with-Does eff pid out_of_memory) (
            if-Does eff (is_code code compactation_required) (bind-Does eff compactar-Does λ _. h)
              (pure-Does eff false)))
        (if-Does eff (p.operation_code == op_number segmento)
          (bind-Does eff (follow-Does eff (get_segment p))
            λ s. bind-Does eff (add_segment-Does pid s) λ _. pure-Does eff true)
          (fail_with-Does eff pid error))

  pub to_memory_from-Does : (pid : ℕ) (x : Instruccion) → Does eff (to_memory_from pid x)
  unfolding to_memory_from
  to_memory_from-Does pid x = send-Does eff _

  pub execute_create_segment-Does :
      (fuel pid : ℕ) (context : PcontextoDesalojo)
      → Does eff (execute_create_segment fuel pid context)
  unfolding execute_create_segment
  execute_create_segment-Does zero pid context = none-Does eff
  execute_create_segment-Does (suc fuel) pid context =
      let again = execute_create_segment-Does fuel pid context in
      if-Does eff _ (fail_with-Does eff pid _) (
        bind-Does eff (to_memory_from-Does pid _)
          λ _. bind-Does eff (receive_from_memory-Does eff) λ p. segment_answer-Does _ pid p again)

  pub execute_delete_segment-Does :
      (pid : ℕ) (context : PcontextoDesalojo) → Does eff (execute_delete_segment pid context)
  unfolding execute_delete_segment
  execute_delete_segment-Does pid context =
      search
        (
          step_rules, to_memory_from-Does, receive_from_memory-Does, set_segments-Does,
          fail_with-Does,
        )
        depth 20
