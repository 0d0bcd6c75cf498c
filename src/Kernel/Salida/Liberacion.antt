-- ===== src/Kernel/Salida/Liberacion.antt =====
-- kernel/src/kernel_cycle.c: a process that ends gives back the instances of its shared resources.
use tp_2023_1c_kernel_flow.Base.{
  ℕ, zero, suc, ◌+◌, sym, ℤ, ◌≤◌, ◌≡◌, ◌⊎◌, inl, inr, refl, ap, ◌∙◌, arith, true, false, Bool-cases,
  Option, some, List, [], ◌∷◌, ◌==◌, ==_iff, length, occurrences, increment, neg_part, is_positive,
}
use tp_2023_1c_kernel_flow.Kernel.Estado.{
  q_block, Queues, Recurso, Kernel, update, bind_runs, ◌>>=◌,
}
use tp_2023_1c_kernel_flow.Kernel.Colas.Moves.{in_queue}
use tp_2023_1c_kernel_flow.Kernel.Recursos.{Library, wake_first}
use tp_2023_1c_kernel_flow.Kernel.Recursos.Waiting.{
  waits_in, update_self, update_other, update-update, waits_le, change-IsSound,
}
use tp_2023_1c_kernel_flow.Kernel.Recursos.Busqueda.{AreAllocated}
use tp_2023_1c_kernel_flow.Kernel.Recursos.Semaphore.{IsKernel, load_lem}
use tp_2023_1c_kernel_flow.Kernel.Recursos.Signal.{
  waits_for, increment_lem, given, woken, wake_first_lem, give_instance_lem, first_blocked,
}
use tp_2023_1c_kernel_flow.Kernel.Salida.{is_in, release, release_all}

-- The kernel once an instance is given back, and once the first that waits has it.
abbrev pub given_to : ℕ → Recurso → Kernel → Kernel
given_to p r k = record k { heap = update p (some (given r)) k.heap }

abbrev pub woken_by : ℕ → Recurso → List ℕ → Queues → Kernel → Kernel
woken_by p r rest q k = record k { queues = q; heap = update p (some (woken r rest)) k.heap }

pub given_back_lem :
    (lib : Library) (k : Kernel) (pid p : ℕ) (r : Recurso)
    → IsKernel k
    → k.heap p ≡ some r
    → ((is_positive (increment r.instancias) ≡ true)
        × (length r.lista_bloqueados ≡ 0)
        × IsKernel (given_to p r k))
      ⊎ ((q : Queues) × (rest : List ℕ) × (is_positive (increment r.instancias) ≡ false)
          × (wake_first p (given_to p r k) ≡ some (tt, woken_by p r rest q k))
          × ((other : ℕ) → in_queue other q_block q ≤ in_queue other q_block k.queues)
          × IsKernel (woken_by p r rest q k))
given_back_lem lib k pid p r s here =
    elim (increment_lem r.instancias (length r.lista_bloqueados) (s.balanced p r here)) [
      | inl (free, balance, empty) ↦ inl (
        free,
        empty,
        change-IsSound k.heap k.fresh k.queues k.queues p r (given r) s here balance s.once
            (λ other. omega arith),
      )
      | inr (none_free, balance) ↦
          let (first, rest, waits) =
            waits_for r.lista_bloqueados (neg_part (increment r.instancias)) balance in
          let (q, woke, m, all) =
            wake_first_lem (given_to p r k) p (given r) first rest
              (update_self p (some (given r)) k.heap) waits
              (first_blocked lib k pid p r s here first rest waits) in
          inr (
            q,
            rest,
            none_free,
            rw (woke, update-update p (some (woken r rest)) (some (given r)) k.heap),
            (λ other. omega (arith, m.counts q_block other)),
            change-IsSound k.heap k.fresh k.queues q p r (woken r rest) s here
                (omega (arith, balance, ap length waits))
                (λ other. omega (arith, s.once other, all other))
                (λ other. omega (arith, m.counts q_block other, ap (occurrences other) waits)),
          )
    ]

is_in_lem : (pid : ℕ) (ps : List ℕ) → occurrences pid ps ≡ 0 → is_in pid ps ≡ false
unfolding is_in
is_in_lem pid [] h = refl
is_in_lem pid (p ∷ ps) h = ground (arith, h, is_in_lem pid ps)

-- What is allocated stays allocated when another value is stored.
pub kept_lem :
    (heap : ℕ → Option Recurso) (p o : ℕ) (v x : Recurso)
    → heap o ≡ some x
    → (y : Recurso) × (update p (some v) heap o ≡ some y)
kept_lem heap p o v x e = elim (Bool-cases (o == p)) [
  | inl same ↦ (v, rw ((==_iff o p).0 same) (update_self p (some v) heap))
  | inr other ↦ (x, rw (update_other p o (some v) heap other) e)
]

-- So many instances more.
abbrev pub raised : ℕ → ℤ → ℤ
raised zero i = i
raised (suc n) i = raised n (increment i)

raised-add : (n m : ℕ) (i : ℤ) → raised n (raised m i) ≡ raised (m + n) i
raised-add n zero i = let e : n ≡ 0 + n = omega arith in ap (λ k. raised k i) e
raised-add n (suc m) i =
    let e : suc (m + n) ≡ suc m + n = omega arith in
    raised-add n m (increment i) ∙ ap (λ k. raised k i) e

-- What is stored at a pointer has one instance more, and every other pointer is as it was.
raised_lem :
    (heap : ℕ → Option Recurso) (p o : ℕ) (r v x : Recurso)
    → heap p ≡ some r
    → v.instancias ≡ increment r.instancias
    → heap o ≡ some x
    → (y : Recurso) × (update p (some v) heap o ≡ some y)
      × (y.instancias ≡ raised (occurrences o (p ∷ [])) x.instancias)
raised_lem heap p o r v x here more e = elim (Bool-cases (o == p)) [
  | inl same ↦
      let equal : o ≡ p = (==_iff o p).0 same in
      let there : heap p ≡ some x = rw (← equal) e in
      let counted : occurrences o (p ∷ []) ≡ 1 = ground (arith, equal) in
      let known : r ≡ x = cc (here, there) in
      (
        v,
        rw equal (update_self p (some v) heap),
        more
            ∙ (ap (λ (z : Recurso). increment z.instancias) known
                ∙ ap (λ n. raised n x.instancias) (sym counted)),
      )
  | inr other ↦
      let counted : occurrences o (p ∷ []) ≡ 0 = ground (arith, other) in
      (
        x,
        rw (update_other p o (some v) heap other) e,
        ap (λ n. raised n x.instancias) (sym counted),
      )
]

release_lem :
    (lib : Library) (k : Kernel) (pid p : ℕ) (r : Recurso)
    → IsKernel k
    → k.heap p ≡ some r
    → in_queue pid q_block k.queues ≡ 0
    → (k' : Kernel) × (release lib pid p k ≡ some (tt, k'))
      × (in_queue pid q_block k'.queues ≡ 0)
      × (k'.pcbs ≡ k.pcbs)
      × ((o : ℕ) (x : Recurso)
          → k.heap o ≡ some x
          → (y : Recurso) × (k'.heap o ≡ some y)
            × (y.instancias ≡ raised (occurrences o (p ∷ [])) x.instancias))
      × IsKernel k'
unfolding release
release_lem lib k pid p r s here running =
    let before : waits_in pid (k.heap p) ≡ occurrences pid r.lista_bloqueados = rw here refl in
    let absent = is_in_lem pid r.lista_bloqueados (
      omega (
        arith,
        before,
        running,
        s.blocked pid,
        waits_le k.heap k.fresh p pid (s.allocated p r here),
      )) in
    let loaded = load_lem (given_to p r k) p (given r) (update_self p (some (given r)) k.heap) in
    elim (given_back_lem lib k pid p r s here) [
      | inl (free, empty, sound) ↦ (
        given_to p r k,
        rw (give_instance_lem lib k pid p r s here, ◌>>=◌, loaded, absent, free),
        running,
        refl,
        (λ o x e. raised_lem k.heap p o r (given r) x here refl e),
        sound,
      )
      | inr (q, rest, none_free, woke, fewer, sound) ↦ (
        woken_by p r rest q k,
        rw (give_instance_lem lib k pid p r s here, ◌>>=◌, loaded, absent, none_free, woke),
        omega (arith, fewer pid, running),
        refl,
        (λ o x e. raised_lem k.heap p o r (woken r rest) x here refl e),
        sound,
      )
    ]

pub release_all_lem :
    (lib : Library) (k : Kernel) (pid : ℕ) (ps : List ℕ)
    → IsKernel k
    → in_queue pid q_block k.queues ≡ 0
    → AreAllocated k.heap ps
    → (k' : Kernel) × (release_all lib pid ps k ≡ some (tt, k'))
      × (k'.pcbs ≡ k.pcbs)
      × ((o : ℕ) (x : Recurso)
          → k.heap o ≡ some x
          → (y : Recurso) × (k'.heap o ≡ some y)
            × (y.instancias ≡ raised (occurrences o ps) x.instancias))
      × IsKernel k'
unfolding release_all
release_all_lem lib k pid [] s running all = (k, refl, refl, (λ o x e. (x, e, refl)), s)
release_all_lem lib k pid (p ∷ rest) s running all =
    let (r, here) = all p (ground arith) in
    let (o, released, still, same, kept, sound) = release_lem lib k pid p r s here running in
    let (k', done, last, more, good) = release_all_lem lib o pid rest sound still λ q found.
      let (x, e) = all q (ground (arith, found)) in let (y, e', _) = kept q x e in (y, e') in
    (
      k',
      bind_runs (release lib pid p) (λ _. release_all lib pid rest) k o tt released ∙ done,
      last ∙ same,
      (λ q x e.
          let (y, e', one) = kept q x e in
          let (z, e'', others) = more q y e' in
          (
            z,
            e'',
            others
                ∙ (ap (raised (occurrences q rest)) one
                    ∙ (raised-add (occurrences q rest) (occurrences q (p ∷ [])) x.instancias
                        ∙ ap (λ n. raised n x.instancias) (counted q))),
          )),
      good,
    )
  where
    counted : (q : ℕ) → occurrences q (p ∷ []) + occurrences q rest ≡ occurrences q (p ∷ rest)
    counted q = omega arith
