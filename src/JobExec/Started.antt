-- ===== src/JobExec/Started.antt =====
-- coreinit/job_exec.c: runs of calls on one core, and how they can stop.
use otos_coreinit.Base.{
  ℕ, ◌≡◌, ◌≢◌, refl, ap, ◌∙◌, List, [], ◌∷◌, none, some, get_elem?, inl, inr, ◌++◌, Bool-cases,
  lt_int, if◌then◌else◌, ◌⊎◌,
}
use otos_coreinit.JobExec.{
  ready, Slot, Core, Goes, returns, resumes, halts, undefined, job_exec_wait, job_exec_wake,
  job_exec_run,
}
use otos_coreinit.JobExec.Table.{Idle}
use otos_coreinit.JobExec.Priority.{wait-Top}
use otos_coreinit.JobExec.Wakes.{WokeHighest, wake-Highest}
use otos_coreinit.JobExec.Running.{Running}
use otos_coreinit.JobExec.Calls.{
  Op, spawn, wait, wake, state_of, step, run, step-Running, spawn_all, spawn_all-Idle,
  run_first-Running,
}

goes_on : (r : Goes × Core) (rsp : ℕ) → r.0 ≡ resumes rsp → state_of r ≢ none
goes_on (returns, c) rsp e n = cc
goes_on (resumes x, c) rsp e n = cc
goes_on (halts, c) rsp e n = cc
goes_on (undefined, c) rsp e n = cc

comes_back : (r : Goes × Core) → r.0 ≡ returns → state_of r ≢ none
comes_back (returns, c) e n = cc
comes_back (resumes x, c) e n = cc
comes_back (halts, c) e n = cc
comes_back (undefined, c) e n = cc

abbrev pub NoneReady : Core → Type 0
NoneReady c = (i : ℕ) (t : Slot) → get_elem? c.job_table i ≡ some t → t.state ≢ ready

-- The core stops in a call: the job that runs waits with no job ready.
abbrev Stops : Op → Core → Type 0
Stops (spawn saved_rsp priority) c = ⊥
Stops (wait q here) c = NoneReady c
Stops (wake q here) c = ⊥

woken_goes :
    (c : Core) (q here cur : ℕ) (s : Slot)
    → WokeHighest c q here cur s (job_exec_wake c q here)
    → state_of (job_exec_wake c q here) ≢ none
woken_goes c q here cur s w = elim (Bool-cases (lt_int s.priority w.t.priority)) [
  | inl more ↦
      goes_on (job_exec_wake c q here) w.t.saved_rsp
        (w.goes ∙ ap (λ b. if b then resumes w.t.saved_rsp else returns) more)
  | inr less ↦
      comes_back (job_exec_wake c q here)
        (w.goes ∙ ap (λ b. if b then resumes w.t.saved_rsp else returns) less)
]

step-Stops : (op : Op) (c : Core) → Running c → step op c ≡ none → Stops op c
step-Stops (spawn saved_rsp priority) c one n = cc
step-Stops (wait q here) c (cur, s, one) n = elim (wait-Top c q here cur s one) [
  | inl (nothing, h) ↦ nothing
  | inr (gave, top) ↦ absurd (goes_on (job_exec_wait c q here) gave.t.saved_rsp gave.goes n)
]
step-Stops (wake q here) c (cur, s, one) n = elim (wake-Highest c q here cur s one) [
  | inl (nobody, same) ↦ absurd (comes_back (job_exec_wake c q here) (ap (λ r. r.0) same) n)
  | inr w ↦ absurd (woken_goes c q here cur s w n)
]

-- The calls came to a job_exec_wait in a state with no job ready.
pub record Stuck (ops : List Op) (c : Core) : Type 0 where
  pub earlier : List Op
  pub q : ℕ
  pub here : ℕ
  pub later : List Op
  pub split : ops ≡ earlier ++ wait q here ∷ later
  pub last : Core
  pub reached : run earlier c ≡ some last
  pub none_ready : NoneReady last

Stops-Stuck : (op : Op) (ops : List Op) (c : Core) → Stops op c → Stuck (op ∷ ops) c
Stops-Stuck (spawn saved_rsp priority) ops c h = elim h [ ]
Stops-Stuck (wait q here) ops c h = record {
  earlier = [];
  q = q;
  here = here;
  later = ops;
  split = refl;
  last = c;
  reached = refl;
  none_ready = h;
}
Stops-Stuck (wake q here) ops c h = elim h [ ]

later-Stuck :
    (op : Op) (ops : List Op) (c c' : Core)
    → step op c ≡ some c'
    → Stuck ops c'
    → Stuck (op ∷ ops) c
later-Stuck op ops c c' e h = record {
  earlier = op ∷ h.earlier;
  q = h.q;
  here = h.here;
  later = h.later;
  split = ap (◌∷◌ op) h.split;
  last = h.last;
  reached = rw (e, run) (h.reached);
  none_ready = h.none_ready;
}

-- What a run of calls comes to.
abbrev pub Outcome : List Op → Core → Type 0
Outcome ops c = Stuck ops c ⊎ ((c' : Core) × (run ops c ≡ some c') × Running c')

run-Running : (ops : List Op) (c : Core) → Running c → Outcome ops c
run-Running [] c one = inr (c, refl, one)
run-Running (op ∷ ops) c one = elim (step-Running op c one) [
  | inl stops ↦ inl (Stops-Stuck op ops c (step-Stops op c one stops))
  | inr (c', e, one') ↦ elim (run-Running ops c' one') [
    | inl stuck ↦ inl (later-Stuck op ops c c' e stuck)
    | inr (c2, e2, one2) ↦ inr (c2, rw (e, run) e2, one2)
  ]
]

-- On a core in which no job runs, after any number of spawns and job_exec_run of a slot, any sequence
-- of job_exec_spawn, job_exec_wait and job_exec_wake by the job that runs is carried out to its end, and
-- then exactly one slot is RUNNING and current_job is its number; or the calls came to a job_exec_wait
-- in a state in which no job was ready.
pub started-Running :
    (c : Core) (js : List (ℕ × ℕ)) (slot : ℕ) (s : Slot) (ops : List Op)
    → Idle c.job_table
    → get_elem? (spawn_all js c).job_table slot ≡ some s
    → Outcome ops (job_exec_run (spawn_all js c) slot).1
started-Running c js slot s ops idle e =
    run-Running ops (job_exec_run (spawn_all js c) slot).1
      (run_first-Running (spawn_all js c) slot s (spawn_all-Idle js c idle) e)
