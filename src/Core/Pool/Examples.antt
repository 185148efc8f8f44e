-- ===== src/Core/Pool/Examples.antt =====
-- One worker, one command, and a stop that comes too early.
use environments.Common.{ℕ, ◌+◌, ◌≡◌, refl, true, false, [], ◌∷◌, arith}
use environments.Core.Pool.{Pool, start_workers, send, receive, Reach, here, next}
use environments.Core.Pool.Laws.{IsPool, Reach-IsPool, Reach-exited, stop_undrained}

abbrev sent : Pool ℕ
sent = record {
  queue = 7 ∷ [];
  idle = 1;
  busy = 0;
  exited = 0;
  stopped = false;
  accepted = 7 ∷ [];
  taken = [];
}

abbrev received : Pool ℕ
received = record {
  queue = [];
  idle = 0;
  busy = 1;
  exited = 0;
  stopped = false;
  accepted = 7 ∷ [];
  taken = 7 ∷ [];
}

received-Reach : Reach (start_workers 1) received
unfolding start_workers
received-Reach =
    next (next here (send (start_workers 1) 7 (omega arith))) (receive sent 7 [] 0 refl refl)

Reach-IsPool_example : IsPool 1 received
Reach-IsPool_example = Reach-IsPool 1 received-Reach

abbrev left : Pool ℕ
left = record {
  queue = 7 ∷ [];
  idle = 0;
  busy = 0;
  exited = 1;
  stopped = true;
  accepted = 7 ∷ [];
  taken = [];
}

abbrev later : Pool ℕ
later = record left { queue = 7 ∷ 8 ∷ []; accepted = 7 ∷ 8 ∷ [] }

later-Reach : Reach left later
later-Reach = next here (send left 8 (omega arith))

exited_pool : later.taken ≡ left.taken
exited_pool = Reach-exited later-Reach refl

stop_undrained_example :
    (p : Pool ℕ) × Reach (start_workers 3) p
    × (p.idle + p.busy ≡ 0)
    × (p.queue ≡ 7 ∷ [])
    × (p.accepted ≡ 7 ∷ [])
stop_undrained_example = stop_undrained 3 7
