-- ===== src/Dpdk/Lifecycle.antt =====
-- `start` and `stop` of `WorkerPipeline` in src/dpdk/worker_pipeline.cpp, as called by one thread. The
-- worker's own thread only reads `running_`.
use virtual_service_gateway.Common.{◌≡◌, refl, Bool, true, false, List, [], ◌∷◌, if◌then◌else◌}
use virtual_service_gateway.Common.Faults.{Result, ok, fault, terminate, ◌>>=◌}

-- `running_`, and whether `worker_thread_` is joinable.
pub record WorkerThread : Type 0 where
  pub running : Bool
  pub joinable : Bool

unfoldable pub new_thread : WorkerThread
new_thread = record { running = false; joinable = false }

-- Assigning to a joinable `std::thread` ends the program.
unfoldable pub start : WorkerThread → Result (WorkerThread × Bool)
start w =
    if w.running
    then ok (w, true)
    else if w.joinable
    then fault terminate
    else ok (record { running = true; joinable = true }, true)

-- The destructor calls it as well.
unfoldable pub stop : WorkerThread → WorkerThread
stop w = record { running = false; joinable = false }

pub data Command : Type 0 where
  starting : Command
  stopping : Command

unfoldable pub run_commands : WorkerThread → List Command → Result WorkerThread
run_commands w [] = ok w
run_commands w (starting ∷ cs) = start w >>= λ r. run_commands r.0 cs
run_commands w (stopping ∷ cs) = run_commands (stop w) cs

-- The thread exists just while the flag is set.
abbrev pub IsConsistent : WorkerThread → Type 0
IsConsistent w = w.joinable ≡ w.running

run_from :
    (running : Bool) (cs : List Command)
    → (w : WorkerThread) × (run_commands (record { running = running; joinable = running }) cs
        ≡ ok w)
      × IsConsistent w
unfolding run_commands start stop
run_from running [] = (record { running = running; joinable = running }, refl, refl)
run_from true (starting ∷ cs) = run_from true cs
run_from false (starting ∷ cs) = run_from true cs
run_from running (stopping ∷ cs) = run_from false cs

-- Any sequence of starts and stops of a new worker returns: no joinable thread is assigned to, and the
-- thread is joinable just while `running_` is set, so that the destructor joins it.
pub run_commands-IsConsistent :
    (cs : List Command)
    → (w : WorkerThread) × (run_commands new_thread cs ≡ ok w)
      × IsConsistent w
      × ((stop w).joinable ≡ false)
unfolding new_thread stop
run_commands-IsConsistent cs = let (w, e, h) = run_from false cs in (w, e, h, refl)
