-- ===== src/Core/Pool/Laws.antt =====
-- Every run of the worker pool: first in, first out, bounded, and no worker lost.
use environments.Common.{
  ℕ, zero, suc, ◌+◌, ◌≡◌, refl, sym, ap, ◌∙◌, ◌≤◌, ◌⊎◌, inl, inr, true, [], ◌∷◌, ◌++◌, length,
  length-append, arith,
}
use mathlib.Core.List.{append_assoc}
use environments.Core.Pool.{
  Pool, start_workers, Step, send, receive, finish, stop, exit, Reach, here, next, queue_capacity,
}

module _ {Command : Type 0} where
  pub record IsPool (n : ℕ) (p : Pool Command) : Type 0 where
    pub bounded : length p.queue ≤ queue_capacity
    pub fifo : p.accepted ≡ p.taken ++ p.queue
    pub all_workers : p.idle + p.busy + p.exited ≡ n
    pub leaves_stopped : (p.exited ≡ 0) ⊎ (p.stopped ≡ true)

  start_workers-IsPool : (n : ℕ) → IsPool n (start_workers n)
  unfolding start_workers
  start_workers-IsPool n = record {
    bounded = omega arith;
    fifo = refl;
    all_workers = omega arith;
    leaves_stopped = inl refl;
  }

  Step-IsPool : {n : ℕ} {p q : Pool Command} → Step p q → IsPool n p → IsPool n q
  Step-IsPool (send p cmd room) i = record {
    bounded = omega (arith, length-append p.queue (cmd ∷ []), room);
    fifo = rw i.fifo (append_assoc p.taken p.queue (cmd ∷ []));
    all_workers = i.all_workers;
    leaves_stopped = i.leaves_stopped;
  }
  Step-IsPool (receive p cmd rest n waiting ready) i = record {
    bounded = omega (arith, i.bounded, ap length waiting);
    fifo = i.fifo ∙ ap (λ q. p.taken ++ q) waiting ∙ sym (append_assoc p.taken (cmd ∷ []) rest);
    all_workers = omega (arith, i.all_workers, ready);
    leaves_stopped = i.leaves_stopped;
  }
  Step-IsPool (finish p n working) i = record {
    bounded = i.bounded;
    fifo = i.fifo;
    all_workers = omega (arith, i.all_workers, working);
    leaves_stopped = i.leaves_stopped;
  }
  Step-IsPool (stop p) i = record {
    bounded = i.bounded;
    fifo = i.fifo;
    all_workers = i.all_workers;
    leaves_stopped = inr refl;
  }
  Step-IsPool (exit p n stopped ready) i = record {
    bounded = i.bounded;
    fifo = i.fifo;
    all_workers = omega (arith, i.all_workers, ready);
    leaves_stopped = inr stopped;
  }

  -- On every run of the pool the queue holds at most 1024 commands, the accepted commands are those
  -- that workers took followed by those that wait, in order, no worker is lost, and none returns
  -- before the pool is stopped.
  pub Reach-IsPool : (n : ℕ) {p : Pool Command} → Reach (start_workers n) p → IsPool n p
  Reach-IsPool n here = start_workers-IsPool n
  Reach-IsPool n (next r s) = Step-IsPool s (Reach-IsPool n r)

  Step-exited :
      {p q : Pool Command}
      → Step p q
      → p.idle + p.busy ≡ 0
      → (q.idle + q.busy ≡ 0) × (q.taken ≡ p.taken)
  Step-exited (send p cmd room) h = (h, refl)
  Step-exited (receive p cmd rest n waiting ready) h = absurd (omega (arith, h, ready))
  Step-exited (finish p n working) h = absurd (omega (arith, h, working))
  Step-exited (stop p) h = (h, refl)
  Step-exited (exit p n stopped ready) h = absurd (omega (arith, h, ready))

  Reach-exited_still :
      {p q : Pool Command}
      → Reach p q
      → p.idle + p.busy ≡ 0
      → (q.idle + q.busy ≡ 0) × (q.taken ≡ p.taken)
  Reach-exited_still here h = (h, refl)
  Reach-exited_still (next r s) h =
      let (none_left, kept) = Reach-exited_still r h in
      let (still, same) = Step-exited s none_left in (still, same ∙ kept)

  -- Once every worker has returned, no command is ever taken again, those that were accepted and
  -- wait included.
  pub Reach-exited : {p q : Pool Command} → Reach p q → p.idle + p.busy ≡ 0 → q.taken ≡ p.taken
  Reach-exited r h = (Reach-exited_still r h).1

  exit_all :
      (n : ℕ) {s : Pool Command} (p : Pool Command)
      → Reach s p
      → p.stopped ≡ true
      → p.idle ≡ n
      → (q : Pool Command) × Reach s q
        × (q.idle ≡ 0)
        × (q.busy ≡ p.busy)
        × (q.queue ≡ p.queue)
        × (q.accepted ≡ p.accepted)
  exit_all zero p r stopped ready = (p, r, ready, refl, refl, refl)
  exit_all (suc n) p r stopped ready =
      exit_all n (record p { idle = n; exited = suc p.exited }) (next r (exit p n stopped ready))
        stopped refl

  -- With any number of workers there is a run in which a command is accepted and the pool is
  -- stopped, and all workers have returned while the command still waits.
  pub stop_undrained :
      (n : ℕ) (cmd : Command)
      → (p : Pool Command) × Reach (start_workers n) p
        × (p.idle + p.busy ≡ 0)
        × (p.queue ≡ cmd ∷ [])
        × (p.accepted ≡ cmd ∷ [])
  unfolding start_workers
  stop_undrained n cmd =
      let start = start_workers n in
      let sent = record start { queue = cmd ∷ []; accepted = cmd ∷ [] } in
      let halted = record sent { stopped = true } in
      let (q, r, idle, busy, waits, accepted) =
        exit_all n halted (next (next here (send start cmd (omega arith))) (stop sent)) refl refl in
      (q, r, omega (arith, idle, busy), waits, accepted)
