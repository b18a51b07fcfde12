-- ===== src/JobExec/Running.antt =====
-- coreinit/job_exec.c: which job runs.
use otos_coreinit.Base.{
  ℕ, ◌≡◌, ◌≢◌, refl, sym, ap, ◌∙◌, true, none, some, arith, get_elem?, inl, inr, Bool-cases,
  Option-cases, lt_int, if◌then◌else◌,
}
use otos_coreinit.JobExec.{
  ready, running, blocked, Slot, Core, Goes, returns, resumes, halts, undefined, update, switch_to,
  is_ready, waits_on, job_exec_wait, job_exec_wake, preempts, pick_highest_priority_ready,
  highest_waiting,
}
use otos_coreinit.JobExec.Best.{Highest, best_of-Highest}
use otos_coreinit.JobExec.Table.{
  get_elem?-update_self, get_elem?-update_ne, of_get_elem?-update, Idle, update-only, keep-only,
  get_elem?-update_any,
}

-- The current job is the one that runs.
pub record OneRunning (c : Core) (cur : ℕ) (s : Slot) : Type 0 where
  pub current : c.current_job ≡ some cur
  pub here : get_elem? c.job_table cur ≡ some s
  pub runs : s.state ≡ running
  pub only : (i : ℕ) (t : Slot) → get_elem? c.job_table i ≡ some t → t.state ≡ running → i ≡ cur

abbrev pub Running : Core → Type 0
Running c = (cur : ℕ) × (s : Slot) × OneRunning c cur s

-- A switch from a table in which nothing runs leaves the job it switches to as the one that runs.
pub switch_to-Running :
    (c : Core) (me next : ℕ) (s u : Slot) (here : ℕ)
    → Idle c.job_table
    → get_elem? c.job_table next ≡ some u
    → Running (switch_to c me next s here).1
switch_to-Running c me next s u here idle e =
    let run : Slot → Slot = λ t. record t { state = running } in
    let save : Slot → Slot = λ t. record t { saved_rsp = here } in
    let (t, at, is) =
      get_elem?-update_any (update c.job_table next run) me next save (run u)
        (get_elem?-update_self c.job_table next run u e) in
    (
      next,
      t,
      record {
        current = refl;
        here = at;
        runs = elim is [ inl a ↦ ap (λ u. u.state) a | inr a ↦ ap (λ u. u.state) a ];
        only =
            keep-only (update c.job_table next run) me next save (λ u. refl)
              (update-only c.job_table next run idle);
      },
    )

pub blocked_Idle :
    (c : Core) (cur : ℕ) (s : Slot) (f : Slot → Slot)
    → OneRunning c cur s
    → ((t : Slot) → (f t).state ≢ running)
    → Idle (update c.job_table cur f)
blocked_Idle c cur s f one stops i t e r = elim (of_get_elem?-update c.job_table cur i f t e) [
  | inl (same, u, before, is) ↦ stops u (ap (λ v. v.state) is ∙ r)
  | inr (other, before) ↦ other (sym (one.only i t before r))
]

-- The outcome of a call: one job runs, or the core waits for interrupts for ever.
abbrev pub GoesOn : Goes × Core → Type 0
GoesOn (returns, c) = Running c
GoesOn (resumes rsp, c) = Running c
GoesOn (halts, c) = Idle c.job_table
GoesOn (undefined, c) = ⊥

pub wait-Running : (c : Core) (q here : ℕ) → Running c → GoesOn (job_exec_wait c q here)
unfolding job_exec_wait
wait-Running c q here (cur, s, one) =
    let f : Slot → Slot = λ t. record t { state = blocked; waiting_on = q } in
    let idle = blocked_Idle c cur s f one (λ t r. cc) in
    let picked = pick_highest_priority_ready (update c.job_table cur f) in
    rw (one.current, job_exec_wait)
      (elim (Option-cases picked) [
        | inl n ↦ rw n idle
        | inr ((next, t), e) ↦ rw (e) (
            switch_to-Running (record c { job_table = update c.job_table cur f }) cur next t t here
              idle
              (best_of-Highest (λ u. is_ready u.state) (update c.job_table cur f) next t e).here)
      ])

-- A slot whose job waits is not the current one.
waiting_ne :
    (c : Core) (cur : ℕ) (s : Slot) (q n : ℕ) (t : Slot)
    → OneRunning c cur s
    → get_elem? c.job_table n ≡ some t
    → waits_on q t ≡ true
    → n ≢ cur
waiting_ne c cur s q n t one e waits same =
    let same_slot : some t ≡ some s = sym e ∙ (ap (get_elem? c.job_table) same ∙ one.here) in
    let ran : t.state ≡ running = ground (arith, same_slot, one.runs) in ground (arith, waits, ran)

-- The test of job_exec_wake, where the woken job is not the current one.
pub preempts_lem :
    (c : Core) (cur : ℕ) (s : Slot) (n : ℕ) (t : Slot) (f : Slot → Slot)
    → OneRunning c cur s
    → n ≢ cur
    → preempts (record c { job_table = update c.job_table n f }) t
      ≡ (if lt_int s.priority t.priority then some cur else none)
preempts_lem c cur s n t f one other =
    rw (one.current) (rw (get_elem?-update_ne c.job_table n cur f other) (rw (one.here) refl))

pub woken-Running :
    (c : Core) (cur : ℕ) (s : Slot) (n : ℕ) (f : Slot → Slot)
    → OneRunning c cur s
    → n ≢ cur
    → ((t : Slot) → (f t).state ≢ running)
    → OneRunning (record c { job_table = update c.job_table n f }) cur s
woken-Running c cur s n f one other stops = record {
  current = one.current;
  here = get_elem?-update_ne c.job_table n cur f other ∙ one.here;
  runs = one.runs;
  only = λ i t e r. elim (of_get_elem?-update c.job_table n i f t e) [
    | inl (same, u, before, is) ↦ absurd (stops u (ap (λ v. v.state) is ∙ r))
    | inr (apart, before) ↦ one.only i t before r
  ];
}

-- The writes of job_exec_wake: to the slot it wakes, and to the caller's when it is preempted.
abbrev pub woken_slot : Slot → Slot
woken_slot u = record u { state = ready; waiting_on = 0 }

abbrev pub yielded : Slot → Slot
yielded u = record u { state = ready }

-- A table in which the slot `n`, where `t` waited, was woken while `cur` runs.
pub record Woken (c : Core) (cur : ℕ) (s : Slot) (n : ℕ) (t : Slot) : Type 0 where
  pub other : n ≢ cur
  pub stays : OneRunning (record c { job_table = update c.job_table n woken_slot }) cur s
  pub idle : Idle (update (update c.job_table n woken_slot) cur yielded)
  pub at : get_elem? (update (update c.job_table n woken_slot) cur yielded) n ≡ some (woken_slot t)

pub highest-Woken :
    (c : Core) (cur : ℕ) (s : Slot) (q n : ℕ) (t : Slot)
    → OneRunning c cur s
    → Highest (waits_on q) c.job_table n t
    → Woken c cur s n t
highest-Woken c cur s q n t one high =
    let other = waiting_ne c cur s q n t one high.here high.passes in
    let stays = woken-Running c cur s n woken_slot one other (λ u r. cc) in
    record {
      other = other;
      stays = stays;
      idle =
          blocked_Idle (record c { job_table = update c.job_table n woken_slot }) cur s yielded
            stays (λ u r. cc);
      at =
          get_elem?-update_ne (update c.job_table n woken_slot) cur n yielded (λ d. other (sym d))
          ∙ get_elem?-update_self c.job_table n woken_slot t high.here;
    }

pub wake-Running : (c : Core) (q here : ℕ) → Running c → GoesOn (job_exec_wake c q here)
unfolding job_exec_wake
wake-Running c q here (cur, s, one) = elim (Option-cases (highest_waiting q c.job_table)) [
  | inl n ↦ rw (n, job_exec_wake) (cur, s, one)
  | inr ((n, t), e) ↦
      let w = highest-Woken c cur s q n t one (best_of-Highest (waits_on q) c.job_table n t e) in
      rw (e, job_exec_wake)
        (rw (preempts_lem c cur s n t woken_slot one w.other)
          (elim (Bool-cases (lt_int s.priority t.priority)) [
            | inl more ↦ rw more (
                switch_to-Running
                  (record c { job_table = update (update c.job_table n woken_slot) cur yielded })
                  cur n t (woken_slot t) here w.idle w.at)
            | inr less ↦ rw less (cur, s, w.stays)
          ]))
]
