-- ===== src/Core/Pool.antt =====
-- The worker pool of core/engine/engine.go: the channel of Queue, the goroutines of StartWorkers and
-- StopWorkers. One step is one communication or one return of `Execute`; which goroutine goes next,
-- and which ready case of a `select`, is open. `accepted` and `taken` record the sends and receives.
pub mod Laws
mod Examples
use environments.Common.{ℕ, suc, ◌+◌, ◌≡◌, ◌<◌, Bool, true, false, List, [], ◌∷◌, ◌++◌, length}

-- cap(queue)
abbrev pub queue_capacity : ℕ
queue_capacity = 1024

pub record Pool (Command : Type 0) : Type 0 where
  pub queue : List Command
  -- workers at the `select`, in Execute, and returned
  pub idle : ℕ
  pub busy : ℕ
  pub exited : ℕ
  -- `workerStop` is closed
  pub stopped : Bool
  pub accepted : List Command
  pub taken : List Command

module _ {Command : Type 0} where
  -- `StartWorkers` with a positive number of workers
  pub start_workers : ℕ → Pool Command
  start_workers n = record {
    queue = [];
    idle = n;
    busy = 0;
    exited = 0;
    stopped = false;
    accepted = [];
    taken = [];
  }

  pub data Step : Pool Command → Pool Command → Type 0 where
    -- `e.queue <- cmd`, which blocks on a full channel; a Queue that is cancelled leaves the pool
    -- as it is and is no step
    send :
        (p : Pool Command) (cmd : Command)
        → length p.queue < queue_capacity
        → Step p (record p { queue = p.queue ++ (cmd ∷ []); accepted = p.accepted ++ (cmd ∷ []) })
    -- `cmd := <-e.queue`, which a stopped pool may still choose
    receive :
        (p : Pool Command) (cmd : Command) (rest : List Command) (n : ℕ)
        → p.queue ≡ cmd ∷ rest
        → p.idle ≡ suc n
        → Step p
            (record p { queue = rest; idle = n; busy = suc p.busy; taken = p.taken ++ (cmd ∷ []) })
    -- Execute returns, with an error or without; the error is logged.
    finish :
        (p : Pool Command) (n : ℕ)
        → p.busy ≡ suc n
        → Step p (record p { busy = n; idle = suc p.idle })
    -- `close(e.workerStop)` of StopWorkers, once
    stop : (p : Pool Command) → Step p (record p { stopped = true })
    -- `<-e.workerStop`, whatever is in the queue
    exit :
        (p : Pool Command) (n : ℕ)
        → p.stopped ≡ true
        → p.idle ≡ suc n
        → Step p (record p { idle = n; exited = suc p.exited })

  pub data Reach (p : Pool Command) : Pool Command → Type 0 where
    here : Reach p p
    next : {q r : Pool Command} → Reach p q → Step q r → Reach p r
