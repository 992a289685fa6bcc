-- ===== src/System/Workers.antt =====
-- Workers that reconcile at the same time and share the mutex of
-- internal/controller/openstackclusterstackrelease_controller.go. A worker makes its calls in its
-- own order, and any worker's next call may come next, but that `Lock` waits while the mutex is
-- held. The mutex is that of Go: anybody may unlock it.
use cluster_stack_provider_o.Base.{
  ℕ, ◌+◌, ◌≡◌, refl, Bool, true, false, String, List, [], ◌∷◌, ◌++◌, Option, none, some, All,
  if◌then◌else◌,
}
use cluster_stack_provider_o.Base.Int.{ℤ}
use cluster_stack_provider_o.Runtime.Calls.{Call, History}
use cluster_stack_provider_o.Runtime.Env.{Env}
use cluster_stack_provider_o.ClusterStack.Lock.{is_locked}
use cluster_stack_provider_o.System.Runs.{IsReachable}

-- A worker: the calls that it has made, the latest first, and those still to come, the next first.
pub record Worker : Type 0 where
  pub done : History
  pub todo : List Call

-- The mutex, and the workers.
pub record Workers : Type 0 where
  pub locked : Bool
  pub workers : List Worker

-- Whether a call waits, and what it leaves of the mutex.
abbrev pub waits : Bool → Call → Bool
waits locked Call.lock = locked
waits locked _ = false

abbrev pub mutex_after : Bool → Call → Bool
mutex_after locked Call.lock = true
mutex_after locked Call.unlock = false
mutex_after locked _ = locked

-- The next call of a worker, where there is one and it does not wait.
abbrev pub advance : Bool → Worker → Option (Bool × Worker)
advance locked w = elim (w.todo) [
  | [] ↦ none
  | c ∷ cs ↦
      if waits locked c
      then none
      else some (mutex_after locked c, record { done = c ∷ w.done; todo = cs })
]

-- One worker makes its next call.
pub data Step : Workers → Workers → Type 0 where
  step :
      (left right : List Worker) (w w' : Worker) (locked locked' : Bool)
      → advance locked w ≡ some (locked', w')
      → Step
          (record { locked = locked; workers = left ++ w ∷ right })
          (record { locked = locked'; workers = left ++ w' ∷ right })

pub data Steps (s : Workers) : Workers → Type 0 where
  here : Steps s s
  onward : {t u : Workers} → Steps s t → Step t u → Steps s u

-- The calls still to come, put on those made.
abbrev pub finally : History → List Call → History
finally done [] = done
finally done (c ∷ cs) = finally (c ∷ done) cs

-- Turned round twice, a history is itself.
pub finally-finally : (h : History) (cs : List Call) → finally [] (finally h cs) ≡ finally cs h
finally-finally h [] = refl
finally-finally h (c ∷ cs) = finally-finally (c ∷ h) cs

abbrev pub whole : Worker → History
whole w = finally w.done w.todo

-- A worker that has not begun.
abbrev pub about_to : List Call → Worker
about_to calls = record { done = []; todo = calls }

-- The calls of some reconciliations one after the other, whatever they are answered: the answers
-- that a worker gets may well depend on what the others do.
pub record IsRun (h : History) : Type 0 where
  pub env : Env
  pub minutes : ℤ
  pub directory : String
  pub reached : IsReachable env minutes directory h

-- At the start, the mutex is free, and each worker is about to do its reconciliations.
pub record IsStart (s : Workers) : Type 0 where
  pub free : s.locked ≡ false
  pub fresh : All (λ w. (w.done ≡ []) × IsRun (whole w)) s.workers

-- The workers that are between `Lock` and `Unlock`.
abbrev pub inside : Worker → ℕ
inside w = if is_locked w.done then 1 else 0

abbrev pub crowd : List Worker → ℕ
crowd [] = 0
crowd (w ∷ ws) = inside w + crowd ws

-- The calls that write the release directory.
abbrev pub is_writing : Call → Bool
is_writing (Call.download_release_assets client tag path) = true
is_writing (Call.remove_all path) = true
is_writing _ = false
