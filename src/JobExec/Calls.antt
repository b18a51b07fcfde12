-- ===== src/JobExec/Calls.antt =====
-- coreinit/job_exec.c: sequences of calls on one core.
use otos_coreinit.Base.{
  ℕ, ◌≡◌, ◌≢◌, refl, sym, ap, ◌∙◌, List, [], ◌∷◌, Option, none, some, arith, get_elem?, inl, inr,
  ◌⊎◌, Option-cases,
}
use otos_coreinit.JobExec.{
  ready, running, Slot, Core, Goes, returns, resumes, halts, undefined, first_at, is_unused,
  job_exec_spawn, job_exec_wait, job_exec_wake, job_exec_run,
}
use otos_coreinit.JobExec.Table.{
  get_elem?-update_self, Idle, update-Idle, update-only, first_at-get_elem?,
}
use otos_coreinit.JobExec.Running.{Running, GoesOn, wait-Running, wake-Running, woken-Running}

pub spawn-Running :
    (c : Core) (saved_rsp priority : ℕ)
    → Running c
    → Running (job_exec_spawn c saved_rsp priority).1
unfolding job_exec_spawn
spawn-Running c saved_rsp priority (cur, s, one) =
    elim (Option-cases (first_at (λ t. is_unused t.state) 0 c.job_table)) [
      | inl n ↦ rw (n, job_exec_spawn) (cur, s, one)
      | inr (i, e) ↦
          let (u, here, free) = first_at-get_elem? (λ t. is_unused t.state) c.job_table i e in
          let other : i ≢ cur = λ same.
            let same_slot : some u ≡ some s =
              sym here ∙ (ap (get_elem? c.job_table) same ∙ one.here) in
            ground (arith, same_slot, one.runs, free) in
          rw (e, job_exec_spawn)
            (
              cur,
              s,
              woken-Running c cur s i
                  (λ t. record {
                    saved_rsp = saved_rsp;
                    priority = priority;
                    state = ready;
                    waiting_on = 0;
                  })
                  one other (λ t r. cc),
            )
    ]

pub data Op : Type 0 where
  -- job_exec_spawn of a context with a priority; job_exec_wait and job_exec_wake on a queue, by the job
  -- that runs, with the address where its context is saved if the core switches.
  spawn wait wake : ℕ → ℕ → Op

-- The state after a call, none if the core stops.
abbrev pub state_of : Goes × Core → Option Core
state_of (returns, c) = some c
state_of (resumes rsp, c) = some c
state_of (halts, c) = none
state_of (undefined, c) = none

abbrev pub call : Op → Core → Goes × Core
call (spawn saved_rsp priority) c = (returns, (job_exec_spawn c saved_rsp priority).1)
call (wait q here) c = job_exec_wait c q here
call (wake q here) c = job_exec_wake c q here

abbrev pub step : Op → Core → Option Core
step op c = state_of (call op c)

abbrev pub run : List Op → Core → Option Core
run [] c = some c
run (op ∷ ops) c = elim (step op c) [ none ↦ none | some c' ↦ run ops c' ]

of_GoesOn :
    (r : Goes × Core)
    → GoesOn r
    → (state_of r ≡ none) ⊎ ((c' : Core) × (state_of r ≡ some c') × Running c')
of_GoesOn (returns, c) h = inr (c, refl, h)
of_GoesOn (resumes rsp, c) h = inr (c, refl, h)
of_GoesOn (halts, c) h = inl refl
of_GoesOn (undefined, c) h = elim h [ ]

call-Running : (op : Op) (c : Core) → Running c → GoesOn (call op c)
call-Running (spawn saved_rsp priority) c one = spawn-Running c saved_rsp priority one
call-Running (wait q here) c one = wait-Running c q here one
call-Running (wake q here) c one = wake-Running c q here one

pub step-Running :
    (op : Op) (c : Core)
    → Running c
    → (step op c ≡ none) ⊎ ((c' : Core) × (step op c ≡ some c') × Running c')
step-Running op c one = of_GoesOn (call op c) (call-Running op c one)

-- Contexts spawned one after the other, each with its priority.
abbrev pub spawn_all : List (ℕ × ℕ) → Core → Core
spawn_all [] c = c
spawn_all (j ∷ js) c = spawn_all js (job_exec_spawn c j.0 j.1).1

spawn-Idle :
    (c : Core) (saved_rsp priority : ℕ)
    → Idle c.job_table
    → Idle (job_exec_spawn c saved_rsp priority).1.job_table
unfolding job_exec_spawn
spawn-Idle c saved_rsp priority idle =
    elim (Option-cases (first_at (λ t. is_unused t.state) 0 c.job_table)) [
      | inl n ↦ rw (n, job_exec_spawn) idle
      | inr (i, e) ↦
          rw (e, job_exec_spawn)
            (update-Idle c.job_table i
              (λ t. record {
                saved_rsp = saved_rsp;
                priority = priority;
                state = ready;
                waiting_on = 0;
              })
              (λ t r. cc) idle)
    ]

pub spawn_all-Idle :
    (js : List (ℕ × ℕ)) (c : Core) → Idle c.job_table → Idle (spawn_all js c).job_table
spawn_all-Idle [] c idle = idle
spawn_all-Idle (j ∷ js) c idle =
    spawn_all-Idle js (job_exec_spawn c j.0 j.1).1 (spawn-Idle c j.0 j.1 idle)

-- The first job of a core in which none runs.
pub run_first-Running :
    (c : Core) (slot : ℕ) (s : Slot)
    → Idle c.job_table
    → get_elem? c.job_table slot ≡ some s
    → Running (job_exec_run c slot).1
unfolding job_exec_run
run_first-Running c slot s idle e =
    let f : Slot → Slot = λ t. record t { state = running } in
    rw (e, job_exec_run)
      (
        slot,
        f s,
        record {
          current = refl;
          here = get_elem?-update_self c.job_table slot f s e;
          runs = refl;
          only = update-only c.job_table slot f idle;
        },
      )
