-- ===== src/JobExec/Examples.antt =====
-- coreinit/job_exec.c on the three jobs of coreinit.c's test of preemption: HIGH waits for a resource,
-- MED parks, and LOW wakes HIGH.
use otos_coreinit.Base.{
  ℕ, ◌<◌, ◌≡◌, ◌≢◌, refl, sym, ◌∙◌, subst, false, List, [], ◌∷◌, none, some, arith, get_elem?,
  replicate, AllAt-get_elem?, AllAt-replicate, ◌⊎◌,
}
use otos_coreinit.JobExec.{
  unused, ready, running, Slot, Core, halts, returns, resumes, job_exec_alloc_stack, job_exec_spawn,
  job_exec_wait, job_exec_wake, job_exec_run, best_of, waits_on, max_resident,
}
use otos_coreinit.JobExec.Table.{Idle}
use otos_coreinit.JobExec.Running.{OneRunning, Running, wait-Running}
use otos_coreinit.JobExec.Calls.{wait, wake, call, spawn_all, run_first-Running, spawn_all-Idle}
use otos_coreinit.JobExec.Started.{Outcome, started-Running}
use otos_coreinit.JobExec.Priority.{Top, NoneAbove, wait-Top, wake-Top}
use otos_coreinit.JobExec.Waits.{GaveWay}
use otos_coreinit.JobExec.Wakes.{WokeHighest, wake-Highest}
use otos_coreinit.JobExec.Context.{Asleep, waited-Resumes}
use otos_coreinit.JobExec.Stacks.{Taken, Gave, alloc_stack-Apart}

abbrev blank : Slot
blank = record { saved_rsp = 0; priority = 0; state = unused; waiting_on = 0 }

abbrev fresh : Core
fresh = record {
  job_table = replicate max_resident blank;
  job_stack_used = replicate max_resident false;
  current_job = none;
  job_stacks = 0x100000;
}

-- The contexts of HIGH, MED and LOW, and the queue of the resource.
abbrev high_rsp : ℕ
high_rsp = 0x1000

abbrev med_rsp : ℕ
med_rsp = 0x2000

abbrev low_rsp : ℕ
low_rsp = 0x3000

abbrev resource_q : ℕ
resource_q = 0x9000

abbrev jobs : List (ℕ × ℕ)
jobs = (high_rsp, 10) ∷ (med_rsp, 5) ∷ (low_rsp, 1) ∷ []

abbrev started : Core
started = (job_exec_run (spawn_all jobs fresh) 0).1

-- HIGH waits, and MED runs; MED parks, and LOW runs.
abbrev med_runs : Core
med_runs = (job_exec_wait started resource_q 0x1111).1

abbrev low_runs : Core
low_runs = (job_exec_wait med_runs 0x9100 0x2222).1

preempted_test :
    ((job_exec_wait started resource_q 0x1111).0 ≡ resumes med_rsp)
    × ((job_exec_wait med_runs 0x9100 0x2222).0 ≡ resumes low_rsp)
    × ((job_exec_wake low_runs resource_q 0x3333).0 ≡ resumes 0x1111)
    × ((job_exec_wake low_runs resource_q 0x3333).1.current_job ≡ some 0)
unfolding job_exec_wait job_exec_wake job_exec_run job_exec_spawn best_of
preempted_test = (refl, refl, refl, refl)

fresh-Idle : Idle fresh.job_table
fresh-Idle i s e =
    AllAt-get_elem? (λ j t. t.state ≢ running) fresh.job_table i s
      (AllAt-replicate (λ j t. t.state ≢ running) 0 max_resident blank (λ j r. cc)) e

started-Running_example : Outcome (wait resource_q 0x1111 ∷ wake resource_q 0x2222 ∷ []) started
unfolding job_exec_spawn
started-Running_example =
    started-Running fresh jobs 0
      (record { saved_rsp = high_rsp; priority = 10; state = ready; waiting_on = 0 })
      (wait resource_q 0x1111 ∷ wake resource_q 0x2222 ∷ []) fresh-Idle refl

started-one : Running started
unfolding job_exec_spawn
started-one =
    run_first-Running (spawn_all jobs fresh) 0
      (record { saved_rsp = high_rsp; priority = 10; state = ready; waiting_on = 0 })
      (spawn_all-Idle jobs fresh fresh-Idle) refl

-- Which job it is that runs.
known-OneRunning :
    (c : Core) (cur : ℕ) (s : Slot)
    → Running c
    → c.current_job ≡ some cur
    → get_elem? c.job_table cur ≡ some s
    → s.state ≡ running
    → OneRunning c cur s
known-OneRunning c cur s (k, t, one) current here runs = record {
  current = current;
  here = here;
  runs = runs;
  only = λ i u e r. one.only i u e r ∙ sym (one.only cur s here runs);
}

abbrev high : Slot
high = record { saved_rsp = high_rsp; priority = 10; state = running; waiting_on = 0 }

abbrev low : Slot
low = record { saved_rsp = low_rsp; priority = 1; state = running; waiting_on = 0 }

high-OneRunning : OneRunning started 0 high
unfolding job_exec_run job_exec_spawn
high-OneRunning = known-OneRunning started 0 high started-one refl refl refl

wait-Top_example :
    (((i : ℕ) (t : Slot) → get_elem? started.job_table i ≡ some t → t.state ≢ ready)
      × ((job_exec_wait started resource_q 0x1111).0 ≡ halts))
    ⊎ (GaveWay started resource_q 0x1111 0 high (job_exec_wait started resource_q 0x1111)
        × Top (job_exec_wait started resource_q 0x1111).1)
wait-Top_example = wait-Top started resource_q 0x1111 0 high high-OneRunning

-- LOW runs while no job of a higher priority is ready.
low_runs-Running : Running low_runs
unfolding job_exec_wait job_exec_run job_exec_spawn best_of
low_runs-Running =
    wait-Running med_runs 0x9100 0x2222 (wait-Running started resource_q 0x1111 started-one)

low_runs-NoneAbove : NoneAbove low_runs.job_table 1
unfolding job_exec_wait job_exec_run job_exec_spawn best_of
low_runs-NoneAbove i t e r = absurd (
    AllAt-get_elem? (λ j u. u.state ≢ ready) low_runs.job_table i t
      (
        (λ d. cc),
        ((λ d. cc), ((λ d. cc), AllAt-replicate (λ j u. u.state ≢ ready) 3 13 blank (λ j d. cc))),
      )
      e r)

low-OneRunning : OneRunning low_runs 2 low
unfolding job_exec_wait job_exec_run job_exec_spawn best_of
low-OneRunning = known-OneRunning low_runs 2 low low_runs-Running refl refl refl

wake-Top_example :
    (((i : ℕ) (t : Slot) → get_elem? low_runs.job_table i ≡ some t → waits_on resource_q t ≡ false)
        × (job_exec_wake low_runs resource_q 0x3333 ≡ (returns, low_runs))
      ⊎ WokeHighest low_runs resource_q 0x3333 2 low (job_exec_wake low_runs resource_q 0x3333))
    × Top (job_exec_wake low_runs resource_q 0x3333).1
wake-Top_example = wake-Top low_runs resource_q 0x3333 2 low low-OneRunning low_runs-NoneAbove

alloc_stack-Apart_example :
    (((i : ℕ) → i < max_resident → Taken fresh i) × (job_exec_alloc_stack fresh ≡ (none, fresh)))
    ⊎ Gave fresh (job_exec_alloc_stack fresh)
alloc_stack-Apart_example = alloc_stack-Apart fresh refl

wake-Highest_example :
    ((i : ℕ) (t : Slot) → get_elem? low_runs.job_table i ≡ some t → waits_on resource_q t ≡ false)
      × (job_exec_wake low_runs resource_q 0x3333 ≡ (returns, low_runs))
    ⊎ WokeHighest low_runs resource_q 0x3333 2 low (job_exec_wake low_runs resource_q 0x3333)
wake-Highest_example = wake-Highest low_runs resource_q 0x3333 2 low low-OneRunning

low_runs-Asleep : Asleep 0 (wait 0x9100 0x2222 ∷ []) med_runs
unfolding job_exec_wait job_exec_run job_exec_spawn best_of
low_runs-Asleep = (
  λ e. cc,
  λ c e.
      let same : low_runs ≡ c = ground (arith, e) in
      subst (λ x. x.current_job ≢ some 0) same (λ r. cc),
)

waited-Resumes_example : (call (wake resource_q 0x3333) low_runs).0 ≡ resumes 0x1111
unfolding job_exec_wait job_exec_wake job_exec_run job_exec_spawn best_of
waited-Resumes_example =
    waited-Resumes started med_runs low_runs 0 high resource_q 0x1111 med_rsp
      (wait 0x9100 0x2222 ∷ []) (wake resource_q 0x3333) high-OneRunning refl low_runs-Asleep refl
      refl
