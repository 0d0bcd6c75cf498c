-- ===== src/Kernel/Procesos/Pasos.antt =====
-- kernel/src/kernel_instructions.c: what the parts of an operation do to the queues, when it returns.
pub mod Instrucciones
pub mod Archivos
pub mod Salida
pub mod Segmentos
pub mod Ciclo
use mathlib.Core.Option
use tp_2023_1c_kernel_flow.Base.{
  ℕ, ◌<◌, ◌≡◌, refl, sym, subst, ap, Bool, true, false, Option, none, some, List, [], ◌∷◌, ◌++◌,
  if◌then◌else◌, map_inverse,
}
use tp_2023_1c_kernel_flow.Kernel.Estado.{
  QueueId, q_new, q_ready, q_exec, q_block, q_exit, Queues, Kernel, M, pure, ◌>>=◌, ◌>>◌, if_null,
  follow, ask,
}
use tp_2023_1c_kernel_flow.Kernel.Colas.{move_pcb_from_to}
use tp_2023_1c_kernel_flow.Kernel.Colas.Moves.{Moved, moved_lem}

-- What an operation may do to the queues: nothing, one thing after the other, a process that is woken,
-- a process that ends.
pub record Effect : Type 1 where
  pub relation : Queues → Queues → Type 0
  pub stays : (q : Queues) → relation q q
  pub joins : (q q' q'' : Queues) → relation q q' → relation q' q'' → relation q q''
  pub wakes : (pid : ℕ) (q q' : Queues) → Moved pid q_block q_ready q q' → relation q q'
  pub aborts : (pid : ℕ) (q q' : Queues) → Moved pid q_block q_exit q q' → relation q q'

-- Whatever it returns, the queues went by the effect.
pub record Does {A : Type 0} (eff : Effect) (m : M A) : Type 0 where
  pub run : (k k' : Kernel) (a : A) → m k ≡ some (a, k') → eff.relation k.queues k'.queues

-- A call that does not return.
abbrev pub waits : {A : Type 0} → M A
waits k = none

pub bind_inverse :
    {A B : Type 0} (x : Option (A × Kernel)) (f : A → M B) (k' : Kernel) (b : B)
    → elim x as (λ _. Option (B × Kernel)) [ none ↦ none | some (a, o) ↦ f a o ] ≡ some (b, k')
    → (a : A) × (o : Kernel) × (x ≡ some (a, o)) × (f a o ≡ some (b, k'))
bind_inverse none f k' b e = absurd (cc e)
bind_inverse (some (a, o)) f k' b e = (a, o, refl, e)

module _ (eff : Effect) where
  received :
      {A : Type 0} (l : List A) (f : List A → Kernel → Kernel)
      → ((l : List A) (k : Kernel) → (f l k).queues ≡ k.queues)
      → (k k' : Kernel) (a : A)
      → elim l as (λ _. Option (A × Kernel)) [ [] ↦ none | p ∷ rest ↦ some (p, f rest k) ]
        ≡ some (a, k')
      → eff.relation k.queues k'.queues
  received [] f h k k' a e = absurd (cc e)
  received (p ∷ rest) f h k k' a e =
      let same : f rest k ≡ k' = cc e in
      subst (λ o. eff.relation k.queues o.queues) same
        (subst (eff.relation k.queues) (sym (h rest k)) (eff.stays k.queues))

  pub bind-Does :
      {A B : Type 0} {m : M A} {f : A → M B}
      → Does eff m
      → ((a : A) → Does eff (f a))
      → Does eff (m >>= f)
  bind-Does {B = B} {m = m} {f = f} h g = record {
    run = λ k k' b e.
        let (a, o, first, second) = bind_inverse (m k) f k' b e in
        eff.joins k.queues o.queues k'.queues (h.run k o a first) ((g a).run o k' b second);
  }

  pub if-Does :
      {A : Type 0} (b : Bool) {m n : M A} → Does eff m → Does eff n → Does eff (if b then m else n)
  if-Does true h g = h
  if-Does false h g = g

  pub if_null-Does :
      {A B : Type 0} (o : Option A) {m : M B} {f : A → M B}
      → Does eff m
      → ((a : A) → Does eff (f a))
      → Does eff (if_null o m f)
  unfolding if_null
  if_null-Does none h g = h
  if_null-Does (some a) h g = g a

  pub at-Does :
      {A : Type 0} {m : Kernel → M A} → ((o : Kernel) → Does eff (m o)) → Does eff (λ k. m k k)
  at-Does h = record { run = λ k k' a e. (h k).run k k' a e }

  pub change-Does :
      {A : Type 0} (a : A) (f : Kernel → Kernel)
      → ((k : Kernel) → (f k).queues ≡ k.queues)
      → Does eff (λ k. some (a, f k))
  change-Does a f h = record {
    run = λ k k' b e.
        let same : f k ≡ k' = cc e in
        subst (λ o. eff.relation k.queues o.queues) same
          (subst (eff.relation k.queues) (sym (h k)) (eff.stays k.queues));
  }

  -- An answer taken off a list of them.
  pub receive-Does :
      {A : Type 0} (answers : Kernel → List A) (f : List A → Kernel → Kernel)
      → ((l : List A) (k : Kernel) → (f l k).queues ≡ k.queues)
      → Does eff (λ k. elim (answers k) [ [] ↦ none | p ∷ rest ↦ some (p, f rest k) ])
  receive-Does answers f h = record { run = λ k k' a e. received (answers k) f h k k' a e }

  pub ask-Does : {A : Type 0} (f : Kernel → A) → Does eff (ask f)
  ask-Does f = record {
    run = λ k k' b e.
        let same : k ≡ k' = cc e in
        subst (λ o. eff.relation k.queues o.queues) same (eff.stays k.queues);
  }

  pub none-Does : {A : Type 0} → Does eff (waits {A = A})
  none-Does = record { run = λ k k' a e. absurd (cc e) }

  pub pure-Does : {A : Type 0} (a : A) → Does eff (pure a)
  pure-Does {A = A} a = record {
    run = λ k k' b e.
        let same : k ≡ k' = cc e in
        subst (λ o. eff.relation k.queues o.queues) same (eff.stays k.queues);
  }

  pub follow-Does : {A : Type 0} (o : Option A) → Does eff (follow o)
  follow-Does none = record { run = λ k k' a e. absurd (cc e) }
  follow-Does (some x) = pure-Does x

  pub wake-Does : (pid : ℕ) → Does eff (move_pcb_from_to pid q_block q_ready)
  wake-Does pid = record {
    run = λ k k' a e. eff.wakes pid k.queues k'.queues (moved_lem pid q_block q_ready k k' e);
  }

  pub abort-Does : (pid : ℕ) → Does eff (move_pcb_from_to pid q_block q_exit)
  abort-Does pid = record {
    run = λ k k' a e. eff.aborts pid k.queues k'.queues (moved_lem pid q_block q_exit k k' e);
  }

  pub leave-Does :
      ((pid : ℕ) (id : QueueId) (q q' : Queues) → Moved pid q_exec id q q' → eff.relation q q')
      → (pid : ℕ) (id : QueueId) → Does eff (move_pcb_from_to pid q_exec id)
  leave-Does h pid id = record {
    run = λ k k' a e. h pid id k.queues k'.queues (moved_lem pid q_exec id k k' e);
  }

pub ruleset step_rules = (
  bind-Does, if-Does, if_null-Does, ask-Does, none-Does, pure-Does, follow-Does, wake-Does,
  abort-Does,
)
