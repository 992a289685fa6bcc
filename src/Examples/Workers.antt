-- ===== src/Examples/Workers.antt =====
-- Two workers that download the same assets at the same time, and the theorems about workers there.
use cluster_stack_provider_o.Base.{
  ℕ, zero, suc, ◌+◌, ◌≡◌, refl, sym, subst, Bool, false, List, [], ◌∷◌, Option, none, some, ◌⊎◌,
}
use cluster_stack_provider_o.Base.Int.{pos}
use cluster_stack_provider_o.Runtime.Calls.{Call, History}
use cluster_stack_provider_o.ClusterStack.Download.{
  load_release, fetch_release, new_assets_client, download,
}
use cluster_stack_provider_o.ClusterStack.Assets.{download_release_assets}
use cluster_stack_provider_o.ClusterStack.Reconcile.{
  with_release, reconcile_body as cluster_stack_body, reconcile as reconcile_cluster_stack,
}
use cluster_stack_provider_o.Runtime.Reconcile.{reconcile_with}
use cluster_stack_provider_o.System.Runs.{IsReachable, start, cluster_stack}
use cluster_stack_provider_o.System.Workers.{
  Worker, Workers, advance, Step, step, Steps, here, onward, finally, finally-finally, about_to,
  IsRun, IsStart, inside, crowd,
}
use cluster_stack_provider_o.System.Exclusion.{Steps-exclusive}
use cluster_stack_provider_o.System.Progress.{Done, remaining, count_steps, Steps-live}
use cluster_stack_provider_o.Examples.Settings.{missing, past}
use cluster_stack_provider_o.Examples.World.{world, req}

abbrev run : History
run = (reconcile_cluster_stack (world missing) "/tmp" req []).1

-- The calls of one reconciliation, the first first.
abbrev calls : List Call
calls = finally [] run

calls-IsRun : IsRun (finally [] calls)
calls-IsRun = record {
  env = world missing;
  minutes = pos 60;
  directory = "/tmp";
  reached =
      subst (IsReachable (world missing) (pos 60) "/tmp") (sym (finally-finally [] run))
        (cluster_stack req [] start);
}

-- Both are about to reconcile.
abbrev both_begin : Workers
both_begin = record { locked = false; workers = about_to calls ∷ about_to calls ∷ [] }

both_begin-IsStart : IsStart both_begin
both_begin-IsStart = record {
  free = refl;
  fresh = ((refl, calls-IsRun), ((refl, calls-IsRun), tt));
}

-- The mutex and the first worker, after as many calls of it as it can make, up to a number.
abbrev goes : Bool × Worker → Bool × Worker
goes (locked, w) = elim (advance locked w) [ none ↦ (locked, w) | some after ↦ after ]

abbrev goes_on : ℕ → Bool × Worker → Bool × Worker
goes_on zero r = r
goes_on (suc n) r = goes_on n (goes r)

-- The first worker in its place.
abbrev with_first : Bool × Worker → List Worker → Workers
with_first (locked, w) ws = record { locked = locked; workers = w ∷ ws }

goes-Steps :
    (s : Workers) (r : Bool × Worker) (ws : List Worker)
    → Steps s (with_first r ws)
    → Steps s (with_first (goes r) ws)
goes-Steps s (locked, w) ws steps = go (advance locked w) refl
  where
    go :
        (t : Option (Bool × Worker))
        → advance locked w ≡ t
        → Steps s (with_first (elim t [ none ↦ (locked, w) | some after ↦ after ]) ws)
    go none e = steps
    go (some (locked', w')) e = onward steps (step [] ws w w' locked locked' e)

goes_on-Steps :
    (n : ℕ) (s : Workers) (r : Bool × Worker) (ws : List Worker)
    → Steps s (with_first r ws)
    → Steps s (with_first (goes_on n r) ws)
goes_on-Steps zero s r ws steps = steps
goes_on-Steps (suc n) s r ws steps = goes_on-Steps n s (goes r) ws (goes-Steps s r ws steps)

-- The first worker has taken the mutex.
abbrev first : Bool × Worker
first = goes_on 5 (false, about_to calls)

first_locked : Steps both_begin (with_first first (about_to calls ∷ []))
first_locked = goes_on-Steps 5 both_begin (false, about_to calls) (about_to calls ∷ []) here

Steps-exclusive_example : (inside first.1 ≡ 1) × (crowd [] ≡ 0) × (crowd (about_to calls ∷ []) ≡ 0)
unfolding reconcile_cluster_stack cluster_stack_body reconcile_with load_release with_release
    fetch_release new_assets_client download download_release_assets
Steps-exclusive_example =
    Steps-exclusive both_begin [] (about_to calls ∷ []) first.1
      (Call.download_release_assets 4 "openstack-ferrol-1-27-v1" "/tmp") (past first.1.todo) first.0
      both_begin-IsStart first_locked refl refl

-- The second worker waits for the mutex after four calls, and the first can go on.
Steps-live_example :
    (count_steps first_locked + remaining (first.1 ∷ about_to calls ∷ [])
      ≡ remaining (about_to calls ∷ about_to calls ∷ []))
    × ((Done (first.1 ∷ about_to calls ∷ []) × (first.0 ≡ false))
        ⊎ ((u : Workers) × Step (with_first first (about_to calls ∷ [])) u))
Steps-live_example =
    Steps-live both_begin (with_first first (about_to calls ∷ [])) first_locked both_begin-IsStart
