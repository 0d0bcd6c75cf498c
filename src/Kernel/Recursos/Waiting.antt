-- ===== src/Kernel/Recursos/Waiting.antt =====
-- kernel/src/kernel_instructions.c: the lists of waiting processes against the instances and the
-- queue of blocked processes.
use tp_2023_1c_kernel_flow.Base.{
  ℕ, zero, suc, ◌+◌, ◌<◌, ◌≤◌, ◌≡◌, ◌⊎◌, sym, subst, refl, fun_ext, Option, none, some, ◌==◌,
  length, arith, occurrences, neg_part, false, Bool-cases, inl, inr, ==_iff,
}
use tp_2023_1c_kernel_flow.Kernel.Estado.{q_block, Queues, Recurso, update}
use tp_2023_1c_kernel_flow.Kernel.Colas.Moves.{in_queue, in_all}

abbrev pub waits_in : ℕ → Option Recurso → ℕ
waits_in pid none = 0
waits_in pid (some r) = occurrences pid r.lista_bloqueados

-- In how many places below a pointer a process waits.
abbrev pub waiting : (ℕ → Option Recurso) → ℕ → ℕ → ℕ
waiting heap zero pid = 0
waiting heap (suc n) pid = waits_in pid (heap n) + waiting heap n pid

pub update_self : (p : ℕ) (v : Option Recurso) (heap : ℕ → Option Recurso) → update p v heap p ≡ v
unfolding update
update_self p v heap = ground arith

pub update_other :
    (p q : ℕ) (v : Option Recurso) (heap : ℕ → Option Recurso)
    → (q == p) ≡ false
    → update p v heap q ≡ heap q
unfolding update
update_other p q v heap h = rw h

waiting-update_above :
    (heap : ℕ → Option Recurso) (n p : ℕ) (v : Option Recurso) (pid : ℕ)
    → n ≤ p
    → waiting (update p v heap) n pid ≡ waiting heap n pid
waiting-update_above heap zero p v pid h = refl
waiting-update_above heap (suc n) p v pid h =
    rw (update_other p n v heap (ground arith), waiting-update_above heap n p v pid (omega arith))

-- A new value of one pointer changes the count by what the two values differ.
pub waiting-update :
    (heap : ℕ → Option Recurso) (n p : ℕ) (v : Option Recurso) (pid : ℕ)
    → p < n
    → waiting (update p v heap) n pid + waits_in pid (heap p) ≡ waiting heap n pid + waits_in pid v
unfolding update
waiting-update heap zero p v pid h = absurd (omega arith)
waiting-update heap (suc n) p v pid h =
    ground (arith, waiting-update heap n p v pid, waiting-update_above heap n p v pid)

-- A process waits at most in one place, and then it is in the queue of blocked processes; no process
-- is in two queues; a resource has as many processes waiting as its instances are below zero.
pub record IsSound (heap : ℕ → Option Recurso) (fresh : ℕ) (queues : Queues) : Type 0 where
  pub balanced :
      (p : ℕ) (r : Recurso) → heap p ≡ some r → length r.lista_bloqueados ≡ neg_part r.instancias
  pub allocated : (p : ℕ) (r : Recurso) → heap p ≡ some r → p < fresh
  pub blocked : (pid : ℕ) → waiting heap fresh pid ≤ in_queue pid q_block queues
  pub once : (pid : ℕ) → in_all pid queues ≤ 1

-- A waiting process is blocked.
pub waits_le :
    (heap : ℕ → Option Recurso) (n p : ℕ) (pid : ℕ)
    → p < n
    → waits_in pid (heap p) ≤ waiting heap n pid
waits_le heap zero p pid h = absurd (omega arith)
waits_le heap (suc n) p pid h = elim (Bool-cases (p == n)) [
  | inl here ↦ rw ((==_iff p n).0 here) (omega arith)
  | inr other ↦ omega (arith, waits_le heap n p pid (ground arith))
]

-- What is read after a save: the value stored, or an old one elsewhere.
pub stored_lem :
    (heap : ℕ → Option Recurso) (p o : ℕ) (v x : Recurso)
    → update p (some v) heap o ≡ some x
    → ((p ≡ o) × (v ≡ x)) ⊎ (heap o ≡ some x)
unfolding update
stored_lem heap p o v x e = elim (Bool-cases (o == p)) [
  | inl same ↦
      let here : o ≡ p = (==_iff o p).0 same in
      let found : some v ≡ some x = rw same at e in inl (sym here, cc found)
  | inr other ↦ inr (rw other at e)
]

-- A resource changes, and the queues with it: what it needs to stay sound.
pub change-IsSound :
    (heap : ℕ → Option Recurso) (fresh : ℕ) (q q' : Queues) (p : ℕ) (r r' : Recurso)
    → IsSound heap fresh q
    → heap p ≡ some r
    → length r'.lista_bloqueados ≡ neg_part r'.instancias
    → ((pid : ℕ) → in_all pid q' ≤ 1)
    → ((pid : ℕ)
        → occurrences pid r'.lista_bloqueados + in_queue pid q_block q
          ≤ occurrences pid r.lista_bloqueados + in_queue pid q_block q')
    → IsSound (update p (some r') heap) fresh q'
change-IsSound heap fresh q q' p r r' s here balance once moves = record {
  balanced = λ o x e. elim (stored_lem heap p o r' x e) [
    | inl (_, same) ↦ subst (λ y. length y.lista_bloqueados ≡ neg_part y.instancias) same balance
    | inr old ↦ s.balanced o x old
  ];
  allocated = λ o x e. elim (stored_lem heap p o r' x e) [
    | inl (same, _) ↦ subst (λ j. j < fresh) same (s.allocated p r here)
    | inr old ↦ s.allocated o x old
  ];
  blocked = λ pid.
      let before : waits_in pid (heap p) ≡ occurrences pid r.lista_bloqueados = rw here refl in
      omega (
        arith,
        before,
        moves pid,
        s.blocked pid,
        waits_le heap fresh p pid (s.allocated p r here),
        waiting-update heap fresh p (some r') pid (s.allocated p r here),
      );
  once = once;
}

-- A second save to the same pointer is the one that counts.
pub update-update :
    (p : ℕ) (v w : Option Recurso) (heap : ℕ → Option Recurso)
    → update p v (update p w heap) ≡ update p v heap
unfolding update
update-update p v w heap = fun_ext λ q. ground arith
