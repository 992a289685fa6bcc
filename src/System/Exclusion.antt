-- ===== src/System/Exclusion.antt =====
-- Mutual exclusion of workers that reconcile at the same time.
use cluster_stack_provider_o.Base.{
  ℕ, ◌+◌, ◌≡◌, refl, sym, ap, subst, ◌∙◌, Bool, true, false, List, [], ◌∷◌, ◌++◌, some, All, arith,
  Bool-cases, inl, inr, if◌then◌else◌,
}
use cluster_stack_provider_o.Runtime.Calls.{Call, History}
use cluster_stack_provider_o.ClusterStack.Lock.{is_locked, is_guarded, IsOrderly}
use cluster_stack_provider_o.System.Runs.{IsReachable-IsOrderly}
use cluster_stack_provider_o.System.Workers.{
  Worker, Workers, waits, mutex_after, advance, Step, step, Steps, here, onward, finally, whole,
  IsStart, IsRun, inside, crowd, is_writing,
}

-- A history is guarded only if its beginnings are.
guarded_before : (c : Call) (h : History) → is_guarded (c ∷ h) ≡ true → is_guarded h ≡ true
guarded_before Call.lock h e = ground arith
guarded_before Call.unlock h e = ground arith
guarded_before (Call.download_release_assets client tag path) h e = ground arith
guarded_before (Call.remove_all path) h e = ground arith
guarded_before _ h e = e

pub guarded-finally :
    (h : History) (cs : List Call) → is_guarded (finally h cs) ≡ true → is_guarded h ≡ true
guarded-finally h [] e = e
guarded-finally h (c ∷ cs) e = guarded_before c h (guarded-finally (c ∷ h) cs e)

pub crowd-append : (ws vs : List Worker) → crowd (ws ++ vs) ≡ crowd ws + crowd vs
crowd-append [] vs = omega arith
crowd-append (w ∷ ws) vs = omega (arith, crowd-append ws vs)

module _ (P : Worker → Type 0) where
  pub All-middle : (left right : List Worker) (w : Worker) → All P (left ++ w ∷ right) → P w
  All-middle [] right w (p, ps) = p
  All-middle (v ∷ left) right w (p, ps) = All-middle left right w ps

  pub All-swap :
      (left right : List Worker) (w w' : Worker)
      → (P w → P w')
      → All P (left ++ w ∷ right)
      → All P (left ++ w' ∷ right)
  All-swap [] right w w' f (p, ps) = (f p, ps)
  All-swap (v ∷ left) right w w' f (p, ps) = (p, All-swap left right w w' f ps)

-- What a step of a worker is.
pub record Advance (locked : Bool) (w : Worker) (locked' : Bool) (w' : Worker) : Type 0 where
  pub call : Call
  pub rest : List Call
  pub before : w.todo ≡ call ∷ rest
  pub free : waits locked call ≡ false
  pub mutex : locked' ≡ mutex_after locked call
  pub after : w' ≡ record { done = call ∷ w.done; todo = rest }

pub advance-Advance :
    (locked locked' : Bool) (w w' : Worker)
    → advance locked w ≡ some (locked', w')
    → Advance locked w locked' w'
advance-Advance locked locked' w w' h = go w.todo refl
  where
    go : (calls : List Call) → w.todo ≡ calls → Advance locked w locked' w'
    go [] e = absurd (ground arith)
    go (c ∷ cs) e = elim (Bool-cases (waits locked c)) [
      | inl k ↦ absurd (ground arith)
      | inr k ↦ record {
        call = c;
        rest = cs;
        before = e;
        free = k;
        mutex = ground arith;
        after = ground arith;
      }
    ]

abbrev pub held : Bool → ℕ
held locked = if locked then 1 else 0

-- The workers inside are as many as hold the mutex, and every worker is orderly in the end.
pub record IsSound (s : Workers) : Type 0 where
  pub orderly : All (λ w. IsOrderly (whole w)) s.workers
  pub counted : crowd s.workers ≡ held s.locked

-- A call keeps the count, whatever the workers besides.
held-mutex_after :
    (c : Call) (h : History) (locked : Bool) (others : ℕ)
    → is_guarded (c ∷ h) ≡ true
    → waits locked c ≡ false
    → held (is_locked h) + others ≡ held locked
    → held (is_locked (c ∷ h)) + others ≡ held (mutex_after locked c)
held-mutex_after Call.lock h locked others e k same = ground arith
held-mutex_after Call.unlock h locked others e k same = ground arith
held-mutex_after _ h locked others e k same = same

crowd-middle :
    (left right : List Worker) (w : Worker)
    → crowd (left ++ w ∷ right) ≡ inside w + (crowd left + crowd right)
crowd-middle left right w = omega (arith, crowd-append left (w ∷ right))

whole-IsOrderly :
    (locked locked' : Bool) (w w' : Worker)
    → Advance locked w locked' w'
    → IsOrderly (whole w)
    → IsOrderly (whole w')
whole-IsOrderly locked locked' w w' a orderly =
    let same : whole w ≡ whole w' = ap (finally w.done) a.before ∙ sym (ap whole a.after) in
    subst IsOrderly same orderly

step_counted :
    (locked locked' : Bool) (w w' : Worker) (others : ℕ)
    → Advance locked w locked' w'
    → IsOrderly (whole w)
    → inside w + others ≡ held locked
    → inside w' + others ≡ held locked'
step_counted locked locked' w w' others a (guarded, free) same = rw (a.after) (
    rw (a.mutex) (
      held-mutex_after a.call w.done locked others
        (guarded-finally (a.call ∷ w.done) a.rest
          (ap (λ cs. is_guarded (finally w.done cs)) (sym a.before) ∙ guarded))
        a.free same))

Step-IsSound : {s t : Workers} → Step s t → IsSound s → IsSound t
Step-IsSound (step left right w w' locked locked' h) sound =
    let a = advance-Advance locked locked' w w' h in
    let orderly = All-middle (λ v. IsOrderly (whole v)) left right w sound.orderly in
    let counted =
      step_counted locked locked' w w' (crowd left + crowd right) a orderly
        (sym (crowd-middle left right w) ∙ sound.counted) in
    record {
      orderly =
          All-swap (λ v. IsOrderly (whole v)) left right w w'
            (whole-IsOrderly locked locked' w w' a) sound.orderly;
      counted = crowd-middle left right w' ∙ counted;
    }

IsRun-IsOrderly : {h : History} → IsRun h → IsOrderly h
IsRun-IsOrderly {h} r = IsReachable-IsOrderly r.env r.minutes r.directory h r.reached

fresh-IsOrderly :
    (ws : List Worker)
    → All (λ w. (w.done ≡ []) × IsRun (whole w)) ws
    → All (λ w. IsOrderly (whole w)) ws
fresh-IsOrderly [] _ = tt
fresh-IsOrderly (w ∷ ws) ((new, ran), rest) = (IsRun-IsOrderly ran, fresh-IsOrderly ws rest)

start_counted : (ws : List Worker) → All (λ w. (w.done ≡ []) × IsRun (whole w)) ws → crowd ws ≡ 0
start_counted [] _ = refl
start_counted (w ∷ ws) ((new, ran), rest) =
    let outside : inside w ≡ 0 = ap (λ h. held (is_locked h)) new in
    omega (arith, start_counted ws rest)

IsStart-IsSound : {s : Workers} → IsStart s → IsSound s
IsStart-IsSound {s} start = record {
  orderly = fresh-IsOrderly s.workers start.fresh;
  counted = start_counted s.workers start.fresh ∙ sym (ap held start.free);
}

pub Steps-IsSound : {s t : Workers} → Steps s t → IsStart s → IsSound t
Steps-IsSound here start = IsStart-IsSound start
Steps-IsSound (onward before last) start = Step-IsSound last (Steps-IsSound before start)

-- A call that writes the release directory is guarded only inside.
writing_inside :
    (c : Call) (h : History) → is_writing c ≡ true → is_guarded (c ∷ h) ≡ true → is_locked h ≡ true
writing_inside (Call.download_release_assets client tag path) h e k = ground arith
writing_inside (Call.remove_all path) h e k = ground arith
writing_inside _ h e k = absurd (cc)

-- However the reconciliations of any number of workers are interleaved, a worker that is about to
-- write the release directory is between its `Lock` and its `Unlock`, and no other worker is.
pub Steps-exclusive :
    (s : Workers) (left right : List Worker) (w : Worker) (c : Call) (rest : List Call)
    (locked : Bool)
    → IsStart s
    → Steps s (record { locked = locked; workers = left ++ w ∷ right })
    → w.todo ≡ c ∷ rest
    → is_writing c ≡ true
    → (inside w ≡ 1) × (crowd left ≡ 0) × (crowd right ≡ 0)
Steps-exclusive s left right w c rest locked start steps next writes =
    let sound = Steps-IsSound steps start in
    let (guarded, free) = All-middle (λ v. IsOrderly (whole v)) left right w sound.orderly in
    let within = writing_inside c w.done writes (
      guarded-finally (c ∷ w.done) rest
        (ap (λ cs. is_guarded (finally w.done cs)) (sym next) ∙ guarded)) in
    let one : inside w ≡ 1 = ap held within in
    let total = sym (crowd-middle left right w) ∙ sound.counted in (one, ground arith, ground arith)
