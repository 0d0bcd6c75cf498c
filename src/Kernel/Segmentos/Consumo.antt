-- ===== src/Kernel/Segmentos/Consumo.antt =====
-- kernel/src/kernel_instructions.c: each question to the memory takes one of its answers, so the fuel of
-- the creation of a segment is enough.
use tp_2023_1c_kernel_flow.Base.{
  ℕ, zero, suc, ◌+◌, ◌<◌, ◌≤◌, ◌≡◌, refl, ap, arith, Bool, true, false, Bool-cases, inl, inr,
  Option, none, some, List, [], ◌∷◌, ◌++◌, length, if◌then◌else◌, ◌==◌,
}
use tp_2023_1c_kernel_flow.Wire.Types.{
  PcontextoDesalojo, SegmentsTable, segmentation_fault, out_of_memory, compactation_required,
}
use tp_2023_1c_kernel_flow.Wire.Package.{Package, op_number, status_code}
use tp_2023_1c_kernel_flow.Wire.Communication.{get_status_code}
use tp_2023_1c_kernel_flow.Kernel.Estado.{
  Kernel, Message, M, pure, ◌>>=◌, ask, follow, send, set_pcb, set_segments, receive_from_memory,
  to_memory,
}
use tp_2023_1c_kernel_flow.Kernel.Archivos.{is_code}
use tp_2023_1c_kernel_flow.Kernel.Segmentos.{
  actualizar_tabla, actualizar_tablas, set_compactation, set_end_program, compacted, compactar,
  segment_answer, to_memory_from, execute_create_segment,
}

abbrev pub answers_left : Kernel → ℕ
answers_left k = length k.from_memory

-- Whatever it returns, the memory has no more answers left than before.
record Spends {A : Type 0} (m : M A) : Type 0 where
  spent : (k k' : Kernel) (a : A) → m k ≡ some (a, k') → answers_left k' ≤ answers_left k

bind_spent :
    {A B : Type 0} (x : Option (A × Kernel)) (f : A → M B) (k' : Kernel) (b : B) (n : ℕ)
    → elim x as (λ _. Option (B × Kernel)) [ none ↦ none | some (a, o) ↦ f a o ] ≡ some (b, k')
    → ((a : A) (o : Kernel) → x ≡ some (a, o) → answers_left o ≤ n)
    → ((a : A) → Spends (f a))
    → answers_left k' ≤ n
bind_spent none f k' b n e h g = absurd (cc e)
bind_spent (some (a, o)) f k' b n e h g = omega (arith, h a o refl, (g a).spent o k' b e)

bind-Spends :
    {A B : Type 0} {m : M A} {f : A → M B} → Spends m → ((a : A) → Spends (f a)) → Spends (m >>= f)
bind-Spends {m = m} {f = f} h g = record {
  spent = λ k k' b e. bind_spent (m k) f k' b (answers_left k) e (λ a o. h.spent k o a) g;
}

if-Spends : {A : Type 0} (b : Bool) {m n : M A} → Spends m → Spends n → Spends (if b then m else n)
if-Spends true h g = h
if-Spends false h g = g

change-Spends :
    {A : Type 0} (a : A) (f : Kernel → Kernel)
    → ((k : Kernel) → answers_left (f k) ≡ answers_left k)
    → Spends (λ k. some (a, f k))
change-Spends a f h = record {
  spent = λ k k' b e. let same : f k ≡ k' = cc e in omega (arith, h k, ap answers_left same);
}

ask-Spends : {A : Type 0} (f : Kernel → A) → Spends (ask f)
ask-Spends f = record {
  spent = λ k k' b e. let same : k ≡ k' = cc e in omega (arith, ap answers_left same);
}

follow-Spends : {A : Type 0} (o : Option A) → Spends (follow o)
follow-Spends none = record { spent = λ k k' a e. absurd (cc e) }
follow-Spends (some x) = ask-Spends λ k. x

pure-Spends : {A : Type 0} (a : A) → Spends (pure a)
pure-Spends a = ask-Spends λ k. a

set_segments-Spends : (pid : ℕ) (table : SegmentsTable) → Spends (set_segments pid table)
unfolding set_segments set_pcb
set_segments-Spends pid table = change-Spends tt _ λ k. refl

send-Spends : (message : Message) → Spends (send message)
unfolding send
send-Spends message = change-Spends tt _ λ k. refl

set_compactation-Spends : (a b : Bool) → Spends (set_compactation a b)
unfolding set_compactation
set_compactation-Spends a b = change-Spends tt _ λ k. refl

set_end_program-Spends : Spends set_end_program
unfolding set_end_program
set_end_program-Spends = change-Spends tt _ λ k. refl

-- An answer is taken: there is one less.
received_lem :
    (l : List Package) (f : List Package → Kernel) (p : Package) (k' : Kernel)
    → ((l : List Package) → answers_left (f l) ≡ length l)
    → elim l as (λ _. Option (Package × Kernel)) [ [] ↦ none | p ∷ rest ↦ some (p, f rest) ]
      ≡ some (p, k')
    → answers_left k' + 1 ≡ length l
received_lem [] f p k' h e = absurd (cc e)
received_lem (p ∷ rest) f p' k' h e =
    let same : f rest ≡ k' = cc e in omega (arith, h rest, ap answers_left same)

receive_takes :
    (k k' : Kernel) (p : Package)
    → receive_from_memory k ≡ some (p, k')
    → answers_left k' + 1 ≡ answers_left k
unfolding receive_from_memory
receive_takes k k' p e =
    received_lem k.from_memory (λ l. record k { from_memory = l }) p k' (λ l. refl) e

receive-Spends : Spends receive_from_memory
receive-Spends = record { spent = λ k k' p e. omega (arith, receive_takes k k' p e) }

ruleset spend_rules = (
  bind-Spends, if-Spends, ask-Spends, follow-Spends, pure-Spends, set_segments-Spends, send-Spends,
  set_compactation-Spends, set_end_program-Spends, receive-Spends,
)

actualizar_tabla-Spends : (table : SegmentsTable) → Spends (actualizar_tabla table)
unfolding actualizar_tabla
actualizar_tabla-Spends table = search spend_rules

actualizar_tablas-Spends : (tables : List SegmentsTable) → Spends (actualizar_tablas tables)
unfolding actualizar_tablas
actualizar_tablas-Spends [] = pure-Spends tt
actualizar_tablas-Spends (table ∷ rest) =
    bind-Spends (actualizar_tabla-Spends table) λ _. actualizar_tablas-Spends rest

compacted-Spends : (p : Package) → Spends (compacted p)
unfolding compacted
compacted-Spends p = search (spend_rules, actualizar_tablas-Spends)

compactar-Spends : Spends compactar
unfolding compactar
compactar-Spends = search (spend_rules, compacted-Spends) depth 12

-- Two ways to go on that agree wherever the first part ends.
agree :
    {A B : Type 0} (x : Option (A × Kernel)) (f g : A → M B)
    → ((a : A) (o : Kernel) → x ≡ some (a, o) → f a o ≡ g a o)
    → elim x as (λ _. Option (B × Kernel)) [ none ↦ none | some (a, o) ↦ f a o ]
      ≡ elim x as (λ _. Option (B × Kernel)) [ none ↦ none | some (a, o) ↦ g a o ]
agree none f g h = refl
agree (some (a, o)) f g h = h a o refl

answer_agree :
    (again once : M Bool) (pid : ℕ) (p : Package) (k : Kernel)
    → ((o : Kernel) → answers_left o ≤ answers_left k → again o ≡ once o)
    → segment_answer again pid p k ≡ segment_answer once pid p k
unfolding segment_answer
answer_agree again once pid p k h = elim (Bool-cases (p.operation_code == op_number status_code)) [
  | inr differs ↦ rw differs
  | inl coded ↦ rw coded (
      agree (follow (get_status_code p) k) _ _ λ code o got.
        elim (Bool-cases (is_code code out_of_memory)) [
          | inl full ↦ rw full
          | inr not_full ↦ elim (Bool-cases (is_code code compactation_required)) [
            | inr no_need ↦ rw (not_full, no_need)
            | inl needed ↦
                rw (not_full, needed)
                  (agree (compactar o) _ _ λ u o' done. h o' (
                    omega (
                      arith,
                      (follow-Spends (get_status_code p)).spent k o code got,
                      compactar-Spends.spent o o' u done,
                    )))
          ]
        ])
]

-- With more fuel than the memory has answers left, the result of `execute_create_segment` does not
-- depend on the fuel.
pub execute_create_segment_fuel :
    (n m pid : ℕ) (context : PcontextoDesalojo) (k : Kernel)
    → answers_left k < n
    → answers_left k < m
    → execute_create_segment n pid context k ≡ execute_create_segment m pid context k
unfolding execute_create_segment to_memory_from send
execute_create_segment_fuel zero m pid context k h g = absurd (omega (arith, h))
execute_create_segment_fuel (suc n) zero pid context k h g = absurd (omega (arith, g))
execute_create_segment_fuel (suc n) (suc m) pid context k h g =
    elim (Bool-cases (is_code context.status_code segmentation_fault)) [
      | inl faulty ↦ rw faulty
      | inr well ↦
          let message = to_memory (record { pid = pid; instruccion = context.motivo_desalojo }) in
          let asked = record k { sent = k.sent ++ message ∷ [] } in
          rw well (
            agree (receive_from_memory asked) _ _ λ p o got. answer_agree _ _ pid p o λ o' fewer.
              execute_create_segment_fuel n m pid context o'
                (omega (arith, h, fewer, receive_takes asked o p got))
                (omega (arith, g, fewer, receive_takes asked o p got)))
    ]
