-- ===== src/System/Progress.antt =====
-- Workers that reconcile at the same time never wait for each other for ever.
use cluster_stack_provider_o.Base.{
  ℕ, suc, ◌+◌, ◌≡◌, ◌≢◌, refl, sym, ap, subst, ◌∙◌, Bool, true, false, List, [], ◌∷◌, ◌++◌, some,
  All, length, arith, Bool-cases, ◌⊎◌, inl, inr,
}
use cluster_stack_provider_o.Runtime.Calls.{Call, History}
use cluster_stack_provider_o.ClusterStack.Lock.{is_locked, is_guarded, IsOrderly}
use cluster_stack_provider_o.System.Workers.{
  Worker, Workers, waits, mutex_after, advance, Step, step, Steps, here, onward, finally, whole,
  IsStart, inside, crowd,
}
use cluster_stack_provider_o.System.Exclusion.{
  guarded-finally, held, IsSound, Steps-IsSound, advance-Advance,
}

-- A worker among others, with its next call.
pub record Busy (ws : List Worker) : Type 0 where
  pub left : List Worker
  pub right : List Worker
  pub worker : Worker
  pub call : Call
  pub rest : List Call
  pub among : ws ≡ left ++ worker ∷ right
  pub next : worker.todo ≡ call ∷ rest

abbrev pub Done : List Worker → Type 0
Done ws = All (λ w. w.todo ≡ []) ws

abbrev busy_later : {ws : List Worker} (w : Worker) → Busy ws → Busy (w ∷ ws)
busy_later w b = record {
  left = w ∷ b.left;
  right = b.right;
  worker = b.worker;
  call = b.call;
  rest = b.rest;
  among = ap (λ vs. w ∷ vs) b.among;
  next = b.next;
}

find_busy : (ws : List Worker) → Done ws ⊎ Busy ws
find_busy [] = inl tt
find_busy (w ∷ ws) = go w.todo refl (find_busy ws)
  where
    go : (calls : List Call) → w.todo ≡ calls → Done ws ⊎ Busy ws → Done (w ∷ ws) ⊎ Busy (w ∷ ws)
    go [] e (inl idle) = inl (e, idle)
    go [] e (inr b) = inr (busy_later w b)
    go (c ∷ cs) e _ =
        inr (record {
          left = [];
          right = ws;
          worker = w;
          call = c;
          rest = cs;
          among = refl;
          next = e;
        })

-- A worker that is inside, and orderly in the end, has a call to come that does not wait.
inside_goes :
    (c : Call) (h : History) → is_guarded (c ∷ h) ≡ true → is_locked h ≡ true → waits true c ≡ false
inside_goes Call.lock h e k = absurd (ground arith)
inside_goes _ h e k = refl

inside_busy :
    (ws : List Worker) (w : Worker)
    → is_locked w.done ≡ true
    → IsOrderly (whole w)
    → (b : Busy (w ∷ ws)) × (waits true b.call ≡ false)
inside_busy ws w within (guarded, free) = go w.todo refl
  where
    go : (calls : List Call) → w.todo ≡ calls → (b : Busy (w ∷ ws)) × (waits true b.call ≡ false)
    go [] e = absurd (
        let out : is_locked w.done ≡ false =
          ap (λ cs. is_locked (finally w.done cs)) (sym e) ∙ free in
        cc)
    go (c ∷ cs) e =
        let step_guarded =
          guarded-finally (c ∷ w.done) cs
            (ap (λ ds. is_guarded (finally w.done ds)) (sym e) ∙ guarded) in
        (
          record { left = []; right = ws; worker = w; call = c; rest = cs; among = refl; next = e },
          inside_goes c w.done step_guarded within,
        )

find_inside :
    (ws : List Worker)
    → All (λ w. IsOrderly (whole w)) ws
    → crowd ws ≢ 0
    → (b : Busy ws) × (waits true b.call ≡ false)
find_inside [] _ some_inside = absurd (some_inside refl)
find_inside (w ∷ ws) (orderly, rest) some_inside = elim (Bool-cases (is_locked w.done)) [
  | inl within ↦ inside_busy ws w within orderly
  | inr out ↦
      let (b, goes) =
        find_inside ws rest
          (λ e. some_inside (let none : inside w ≡ 0 = ap held out in omega arith)) in
      (busy_later w b, goes)
]

busy_steps :
    (locked : Bool) (ws : List Worker) (b : Busy ws)
    → waits locked b.call ≡ false
    → (u : Workers) × Step (record { locked = locked; workers = ws }) u
busy_steps locked ws b goes =
    let after : Worker = record { done = b.call ∷ b.worker.done; todo = b.rest } in
    let moves : advance locked b.worker ≡ some (mutex_after locked b.call, after) = ground arith in
    (
      _,
      subst
          (λ vs.
            Step (record { locked = locked; workers = vs })
              (record { locked = mutex_after locked b.call; workers = b.left ++ after ∷ b.right }))
          (sym b.among)
          (step b.left b.right b.worker after locked (mutex_after locked b.call) moves),
    )

free_goes : (c : Call) → waits false c ≡ false
free_goes Call.lock = refl
free_goes _ = refl

sound_moves :
    (locked : Bool) (ws : List Worker)
    → IsSound (record { locked = locked; workers = ws })
    → (Done ws × (locked ≡ false))
      ⊎ ((u : Workers) × Step (record { locked = locked; workers = ws }) u)
sound_moves true ws sound =
    let (b, goes) = find_inside ws sound.orderly (λ e. let one = sound.counted in ground arith) in
    inr (busy_steps true ws b goes)
sound_moves false ws sound = elim (find_busy ws) [
  | inl idle ↦ inl (idle, refl)
  | inr b ↦ inr (busy_steps false ws b (free_goes b.call))
]

-- The calls that are still to come.
abbrev pub remaining : List Worker → ℕ
remaining [] = 0
remaining (w ∷ ws) = length w.todo + remaining ws

remaining-append : (ws vs : List Worker) → remaining (ws ++ vs) ≡ remaining ws + remaining vs
remaining-append [] vs = omega arith
remaining-append (w ∷ ws) vs = omega (arith, remaining-append ws vs)

Step-remaining : {s t : Workers} → Step s t → suc (remaining t.workers) ≡ remaining s.workers
Step-remaining (step left right w w' locked locked' h) =
    let a = advance-Advance locked locked' w w' h in
    let old : length w.todo ≡ suc (length a.rest) = ap length a.before in
    let new : length w'.todo ≡ length a.rest = ap (λ v. length v.todo) a.after in
    omega (arith, remaining-append left (w ∷ right), remaining-append left (w' ∷ right))

abbrev pub count_steps : {s t : Workers} → Steps s t → ℕ
count_steps here = 0
count_steps (onward before last) = suc (count_steps before)

Steps-remaining :
    {s t : Workers} (steps : Steps s t)
    → count_steps steps + remaining t.workers ≡ remaining s.workers
Steps-remaining here = omega arith
Steps-remaining (onward before last) = omega (arith, Step-remaining last, Steps-remaining before)

-- However the reconciliations of any number of workers are interleaved, each step uses up one of the
-- calls that they are to make, so that there are no more steps than these; and as long as not all
-- workers are finished with the mutex free, some worker can make its next call.
pub Steps-live :
    (s t : Workers) (steps : Steps s t)
    → IsStart s
    → (count_steps steps + remaining t.workers ≡ remaining s.workers)
      × ((Done t.workers × (t.locked ≡ false)) ⊎ ((u : Workers) × Step t u))
Steps-live s t steps start =
    (Steps-remaining steps, sound_moves t.locked t.workers (Steps-IsSound steps start))
