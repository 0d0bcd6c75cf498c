-- ===== src/Cpu/Ciclo/Contexto.antt =====
-- cpu/src/instruction_cycle.c: after the fetch, nothing changes the context that the CPU executes.
use tp_2023_1c_kernel_flow.Base.{
  ℕ, ◌≡◌, ◌∙◌, refl, sym, ap, Bool, true, false, Option, none, some, List, [], ◌∷◌, if◌then◌else◌,
}
use tp_2023_1c_kernel_flow.Wire.Types.{
  Instruccion, Identificador, i_set, i_mov_in, i_mov_out, i_f_read, i_f_write, i_create_segment,
  other, PcontextoDesalojo, StatusCode, Segment, Registers,
}
use tp_2023_1c_kernel_flow.Wire.Package.{Package}
use tp_2023_1c_kernel_flow.Cpu.Estado.{
  Library, Cpu, Request, M, pure, ask, ◌>>=◌, follow, set_registers, set_seg_fault, set_ejecutando,
  request, answer,
}
use tp_2023_1c_kernel_flow.Cpu.Instrucciones.{
  set_register, info_received, mov_in, status_received, mov_out, stop_exec,
}
use tp_2023_1c_kernel_flow.Cpu.Ciclo.{
  decode_mov, decode_file, decode_create, decode_as, decode, moved, stopped, execute_as,
  checked_fault, memory_fault, execute_good,
}

-- Whatever it returns, the context is as it was.
pub record Keeps {A : Type 0} (m : M A) : Type 0 where
  pub kept : (c c' : Cpu) (a : A) → m c ≡ some (a, c') → c'.contexto ≡ c.contexto

pub bind_inverse :
    {A B : Type 0} (x : Option (A × Cpu)) (f : A → M B) (c' : Cpu) (b : B)
    → elim x as (λ _. Option (B × Cpu)) [ none ↦ none | some (a, o) ↦ f a o ] ≡ some (b, c')
    → (a : A) × (o : Cpu) × (x ≡ some (a, o)) × (f a o ≡ some (b, c'))
bind_inverse none f c' b e = absurd (cc e)
bind_inverse (some (a, o)) f c' b e = (a, o, refl, e)

pub bind-Keeps :
    {A B : Type 0} {m : M A} {f : A → M B} → Keeps m → ((a : A) → Keeps (f a)) → Keeps (m >>= f)
bind-Keeps {m = m} {f = f} h g = record {
  kept = λ c c' b e.
      let (a, o, first, second) = bind_inverse (m c) f c' b e in
      (g a).kept o c' b second ∙ h.kept c o a first;
}

pub if-Keeps : {A : Type 0} (b : Bool) {m n : M A} → Keeps m → Keeps n → Keeps (if b then m else n)
if-Keeps true h g = h
if-Keeps false h g = g

pub change-Keeps :
    {A : Type 0} (a : A) (f : Cpu → Cpu)
    → ((c : Cpu) → (f c).contexto ≡ c.contexto)
    → Keeps (λ c. some (a, f c))
change-Keeps a f h = record {
  kept = λ c c' b e. let same : f c ≡ c' = cc e in sym (ap (λ o. o.contexto) same) ∙ h c;
}

pub ask-Keeps : {A : Type 0} (f : Cpu → A) → Keeps (ask f)
ask-Keeps f = record {
  kept = λ c c' b e. let same : c ≡ c' = cc e in sym (ap (λ o. o.contexto) same);
}

pub follow-Keeps : {A : Type 0} (o : Option A) → Keeps (follow o)
follow-Keeps none = record { kept = λ c c' a e. absurd (cc e) }
follow-Keeps (some x) = ask-Keeps λ c. x

pub pure-Keeps : {A : Type 0} (a : A) → Keeps (pure a)
pure-Keeps a = ask-Keeps λ c. a

pub set_registers-Keeps : (r : Registers) → Keeps (set_registers r)
unfolding set_registers
set_registers-Keeps r = change-Keeps tt _ λ c. refl

pub set_seg_fault-Keeps : (b : Bool) → Keeps (set_seg_fault b)
unfolding set_seg_fault
set_seg_fault-Keeps b = change-Keeps tt _ λ c. refl

pub set_ejecutando-Keeps : (b : Bool) → Keeps (set_ejecutando b)
unfolding set_ejecutando
set_ejecutando-Keeps b = change-Keeps tt _ λ c. refl

pub request-Keeps : (r : Request) → Keeps (request r)
unfolding request
request-Keeps r = change-Keeps tt _ λ c. refl

answered_lem :
    (l : List Package) (c c' : Cpu) (p : Package)
    → elim l as (λ _. Option (Package × Cpu)) [
      | [] ↦ none
      | p ∷ rest ↦ some (p, record c { from_memory = rest })
    ]
      ≡ some (p, c')
    → c'.contexto ≡ c.contexto
answered_lem [] c c' p e = absurd (cc e)
answered_lem (q ∷ rest) c c' p e =
    let same : record c { from_memory = rest } ≡ c' = cc e in sym (ap (λ o. o.contexto) same)

pub answer-Keeps : Keeps answer
unfolding answer
answer-Keeps = record { kept = λ c c' p e. answered_lem c.from_memory c c' p e }

pub ruleset keep_rules = (
  bind-Keeps, if-Keeps, ask-Keeps, follow-Keeps, pure-Keeps, set_registers-Keeps,
  set_seg_fault-Keeps, set_ejecutando-Keeps, request-Keeps, answer-Keeps,
)

module _ (lib : Library) where
  pub set_register-Keeps : (registro valor : List ℕ) → Keeps (set_register lib registro valor)
  unfolding set_register
  set_register-Keeps registro valor = search keep_rules depth 12

  pub info_received-Keeps : (registro : List ℕ) (p : Package) → Keeps (info_received lib registro p)
  unfolding info_received
  info_received-Keeps registro p = search keep_rules depth 12

  pub mov_in-Keeps : (registro fisica : List ℕ) → Keeps (mov_in lib registro fisica)
  unfolding mov_in
  mov_in-Keeps registro fisica = search (keep_rules, info_received-Keeps) depth 12

  pub status_received-Keeps : (p : Package) → Keeps (status_received lib p)
  unfolding status_received
  status_received-Keeps p = search keep_rules depth 12

  pub mov_out-Keeps : (fisica registro : List ℕ) → Keeps (mov_out lib fisica registro)
  unfolding mov_out
  mov_out-Keeps fisica registro = search (keep_rules, status_received-Keeps) depth 12

  pub stop_exec-Keeps : (x : Instruccion) (code : StatusCode) → Keeps (stop_exec lib x code)
  unfolding stop_exec
  stop_exec-Keeps x code = search keep_rules depth 12

  pub decode_mov-Keeps :
      (cambiar : Instruccion → List Segment → Option Instruccion)
      (logica registro : Option (List ℕ)) (segments : List Segment) (x : Instruccion)
      → Keeps (decode_mov lib cambiar logica registro segments x)
  unfolding decode_mov
  decode_mov-Keeps cambiar logica registro segments x = search keep_rules depth 12

  pub decode_file-Keeps :
      (segments : List Segment) (x : Instruccion) → Keeps (decode_file lib segments x)
  unfolding decode_file
  decode_file-Keeps segments x = search keep_rules depth 12

  pub decode_create-Keeps : (x : Instruccion) → Keeps (decode_create lib x)
  unfolding decode_create
  decode_create-Keeps x = search keep_rules depth 12

  pub decode_as-Keeps :
      (i : Identificador) (segments : List Segment) (x : Instruccion)
      → Keeps (decode_as lib i segments x)
  unfolding decode_as
  decode_as-Keeps i_mov_in segments x = decode_mov-Keeps _ _ _ segments x
  decode_as-Keeps i_mov_out segments x = decode_mov-Keeps _ _ _ segments x
  decode_as-Keeps i_f_read segments x = decode_file-Keeps segments x
  decode_as-Keeps i_f_write segments x = decode_file-Keeps segments x
  decode_as-Keeps i_create_segment segments x = decode_create-Keeps x
  decode_as-Keeps _ segments x = pure-Keeps x

  pub decode-Keeps : (x : Instruccion) → Keeps (decode lib x)
  unfolding decode
  decode-Keeps x = search (keep_rules, decode_as-Keeps) depth 12

  pub moved-Keeps : (x : Instruccion) (value : Bool) → Keeps (moved lib x value)
  unfolding moved
  moved-Keeps x true = pure-Keeps _
  moved-Keeps x false = search keep_rules

  pub stopped-Keeps : (x : Instruccion) → Keeps (stopped lib x)
  unfolding stopped
  stopped-Keeps x = search (keep_rules, stop_exec-Keeps)

  pub execute_as-Keeps : (i : Identificador) (x : Instruccion) → Keeps (execute_as lib i x)
  unfolding execute_as
  execute_as-Keeps i_set x = search (keep_rules, set_register-Keeps) depth 12
  execute_as-Keeps i_mov_in x = search (keep_rules, mov_in-Keeps, moved-Keeps) depth 12
  execute_as-Keeps i_mov_out x = search (keep_rules, mov_out-Keeps, moved-Keeps) depth 12
  execute_as-Keeps (other n) x = pure-Keeps _
  execute_as-Keeps _ x = stopped-Keeps x

  pub checked_fault-Keeps : (x : Instruccion) → Keeps (checked_fault lib x)
  unfolding checked_fault
  checked_fault-Keeps x = search (keep_rules, stop_exec-Keeps) depth 12

  pub memory_fault-Keeps :
      (desalojo : Option PcontextoDesalojo) (x : Instruccion) → Keeps (memory_fault lib desalojo x)
  unfolding memory_fault
  memory_fault-Keeps desalojo x = search (keep_rules, stop_exec-Keeps) depth 12

  pub execute_good-Keeps : (x : Instruccion) → Keeps (execute_good lib x)
  unfolding execute_good
  execute_good-Keeps x =
      bind-Keeps (execute_as-Keeps x.identificador x) λ (desalojo, y). memory_fault-Keeps desalojo y
