-- ===== src/JobExec/Wakes.antt =====
-- coreinit/job_exec.c: whom job_exec_wake wakes.
use otos_coreinit.Base.{
  ℕ, ◌≡◌, ◌≢◌, refl, sym, ◌∙◌, true, false, arith, some, get_elem?, lt_int, if◌then◌else◌, inl, inr,
  ◌⊎◌, Bool-cases, Option-cases,
}
use otos_coreinit.JobExec.{
  JobState, unused, ready, running, blocked, is_blocked, Slot, Core, Goes, returns, resumes, update,
  switch_to, waits_on, job_exec_wake, highest_waiting,
}
use otos_coreinit.JobExec.Best.{Highest, best_of-Highest, best_of-none}
use otos_coreinit.JobExec.Table.{get_elem?-update_self, get_elem?-update_ne}
use otos_coreinit.JobExec.Running.{
  OneRunning, preempts_lem, Woken, highest-Woken, woken_slot, yielded,
}

-- The job `n` was woken, where the slot `t` was the first of the highest priority that waited: it
-- runs, if it has a higher priority than the caller, which is then ready with its context saved at
-- `at`; else it is ready and the caller goes on with the slot it had. Every other job keeps its slot.
pub record WokeHighest (c : Core) (q at cur : ℕ) (s : Slot) (r : Goes × Core) : Type 0 where
  pub n : ℕ
  pub t : Slot
  pub highest : Highest (waits_on q) c.job_table n t
  pub waited : (t.state ≡ blocked) × (t.waiting_on ≡ q)
  pub goes : r.0 ≡ (if lt_int s.priority t.priority then resumes t.saved_rsp else returns)
  pub current : r.1.current_job ≡ some (if lt_int s.priority t.priority then n else cur)
  pub slot :
      get_elem? r.1.job_table n
      ≡ some (record t {
        state = if lt_int s.priority t.priority then running else ready;
        waiting_on = 0;
      })
  pub caller :
      get_elem? r.1.job_table cur
      ≡ some
          (if lt_int s.priority t.priority then record s { saved_rsp = at; state = ready } else s)
  pub others : (i : ℕ) → i ≢ n → i ≢ cur → get_elem? r.1.job_table i ≡ get_elem? c.job_table i

is_blocked→blocked : (x : JobState) → is_blocked x ≡ true → x ≡ blocked
is_blocked→blocked unused e = cc
is_blocked→blocked ready e = cc
is_blocked→blocked running e = cc
is_blocked→blocked blocked e = refl

waits_on→waited :
    (q : ℕ) (t : Slot) → waits_on q t ≡ true → (t.state ≡ blocked) × (t.waiting_on ≡ q)
waits_on→waited q t e = elim (Bool-cases (is_blocked t.state)) [
  | inl b ↦ (is_blocked→blocked t.state b, ground (arith, e, b))
  | inr b ↦ ground (arith, e, b)
]

switched-Woke :
    (c : Core) (q here cur : ℕ) (s : Slot) (n : ℕ) (t : Slot)
    → Highest (waits_on q) c.job_table n t
    → Woken c cur s n t
    → lt_int s.priority t.priority ≡ true
    → WokeHighest c q here cur s (
        switch_to
          (record c { job_table = update (update c.job_table n woken_slot) cur yielded })
          cur
          n
          t
          here)
switched-Woke c q here cur s n t high w more =
    let run : Slot → Slot = λ u. record u { state = running } in
    let save : Slot → Slot = λ u. record u { saved_rsp = here } in
    let woken = update c.job_table n woken_slot in
    let yields = update woken cur yielded in
    record {
      n = n;
      t = t;
      highest = high;
      waited = waits_on→waited q t high.passes;
      goes = rw more refl;
      current = rw more refl;
      slot = rw more (
          get_elem?-update_ne (update yields n run) cur n save (λ d. w.other (sym d))
          ∙ get_elem?-update_self yields n run (woken_slot t) w.at);
      caller = rw more (
          get_elem?-update_self (update yields n run) cur save (yielded s) (
            get_elem?-update_ne yields n cur run w.other
            ∙ get_elem?-update_self woken cur yielded s w.stays.here));
      others = λ i not_n not_cur.
          get_elem?-update_ne (update yields n run) cur i save (λ d. not_cur (sym d))
          ∙ (get_elem?-update_ne yields n i run (λ d. not_n (sym d))
              ∙ (get_elem?-update_ne woken cur i yielded (λ d. not_cur (sym d))
                  ∙ get_elem?-update_ne c.job_table n i woken_slot (λ d. not_n (sym d))));
    }

-- If no job waits on the queue, job_exec_wake changes nothing. Otherwise it wakes the one that waits
-- there with the highest priority, of equal ones the first in the table: it runs at once, with its saved
-- context, if it has a higher priority than the caller, which is then ready with its own context saved;
-- else it is ready, and the caller goes on with the slot it had. Every other job keeps its slot.
pub wake-Highest :
    (c : Core) (q here cur : ℕ) (s : Slot)
    → OneRunning c cur s
    → ((i : ℕ) (t : Slot) → get_elem? c.job_table i ≡ some t → waits_on q t ≡ false)
        × (job_exec_wake c q here ≡ (returns, c))
      ⊎ WokeHighest c q here cur s (job_exec_wake c q here)
unfolding job_exec_wake
wake-Highest c q here cur s one = elim (Option-cases (highest_waiting q c.job_table)) [
  | inl n ↦ inl (best_of-none (waits_on q) c.job_table n, rw (n, job_exec_wake) refl)
  | inr ((n, t), e) ↦
      let high = best_of-Highest (waits_on q) c.job_table n t e in
      let w = highest-Woken c cur s q n t one high in
      inr (
        rw (e, job_exec_wake)
          (rw (preempts_lem c cur s n t woken_slot one w.other)
            (elim (Bool-cases (lt_int s.priority t.priority)) [
              | inl more ↦ rw more (switched-Woke c q here cur s n t high w more)
              | inr less ↦ rw less (record {
                n = n;
                t = t;
                highest = high;
                waited = waits_on→waited q t high.passes;
                goes = rw less refl;
                current = rw less (one.current);
                slot = rw less (get_elem?-update_self c.job_table n woken_slot t high.here);
                caller = rw less (w.stays.here);
                others = λ i a b. get_elem?-update_ne c.job_table n i woken_slot (λ d. a (sym d));
              })
            ])))
]
