-- ===== src/JobExec/Priority.antt =====
-- coreinit/job_exec.c: the job that runs against those that are ready.
use otos_coreinit.Base.{
  ℕ, ◌≡◌, ◌≢◌, refl, sym, ap, ◌∙◌, subst, false, none, ◌⊎◌, List, some, arith, get_elem?, lt_int,
  inl, inr, Bool-cases, Option-cases,
}
use otos_coreinit.JobExec.{
  ready, running, Slot, Core, returns, halts, update, switch_to, is_ready, waits_on, job_exec_wait,
  job_exec_wake, pick_highest_priority_ready, highest_waiting,
}
use otos_coreinit.JobExec.Best.{best_of-Highest, best_of-none}
use otos_coreinit.JobExec.Table.{
  get_elem?-update_self, of_get_elem?-update, Idle, get_elem?-update_any,
}
use otos_coreinit.JobExec.Waits.{ready_slot, waiting_slot, GaveWay, switched-GaveWay, none-blocked}
use otos_coreinit.JobExec.Wakes.{WokeHighest, wake-Highest}
use otos_coreinit.JobExec.Running.{
  OneRunning, switch_to-Running, blocked_Idle, preempts_lem, highest-Woken, woken_slot, yielded,
}

-- No ready job has a higher priority than this.
abbrev pub NoneAbove : List Slot → ℕ → Type 0
NoneAbove ss p =
    (i : ℕ) (t : Slot) → get_elem? ss i ≡ some t → t.state ≡ ready → lt_int p t.priority ≡ false

-- One job runs, and no ready job has a higher priority.
abbrev pub Top : Core → Type 0
Top c = (cur : ℕ) × (s : Slot) × OneRunning c cur s × NoneAbove c.job_table s.priority

-- A write that keeps the priority and makes no job ready.
update-NoneAbove :
    (ss : List Slot) (n p : ℕ) (f : Slot → Slot)
    → ((s : Slot) → (f s).priority ≡ s.priority)
    → ((s : Slot) → (f s).state ≡ ready → s.state ≡ ready)
    → NoneAbove ss p
    → NoneAbove (update ss n f) p
update-NoneAbove ss n p f same_priority was none_above i t e r =
    elim (of_get_elem?-update ss n i f t e) [
      | inl (same, s, before, is) ↦
          let old = none_above i s before (was s (ap (λ u. u.state) is ∙ r)) in
          let priority : t.priority ≡ s.priority =
            sym (ap (λ u. u.priority) is) ∙ same_priority s in
          rw priority old
      | inr (other, before) ↦ none_above i t before r
    ]

-- A write that makes a job of no higher priority ready.
ready-NoneAbove :
    (ss : List Slot) (n p : ℕ) (f : Slot → Slot) (u : Slot)
    → get_elem? ss n ≡ some u
    → lt_int p (f u).priority ≡ false
    → NoneAbove ss p
    → NoneAbove (update ss n f) p
ready-NoneAbove ss n p f u here low none_above i t e r = elim (of_get_elem?-update ss n i f t e) [
  | inl (same, s, before, is) ↦
      let again : some s ≡ some u = sym before ∙ (ap (get_elem? ss) (sym same) ∙ here) in
      let su : s ≡ u = ground (arith, again) in
      let tu : t.priority ≡ (f u).priority =
        sym (ap (λ v. v.priority) is) ∙ ap (λ v. (f v).priority) su in
      rw tu low
  | inr (other, before) ↦ none_above i t before r
]

switch_to-Top :
    (c : Core) (me next : ℕ) (s u : Slot) (here : ℕ)
    → Idle c.job_table
    → get_elem? c.job_table next ≡ some u
    → NoneAbove c.job_table u.priority
    → Top (switch_to c me next s here).1
switch_to-Top c me next s u here idle e above =
    let (cur, t, one) = switch_to-Running c me next s u here idle e in
    let run : Slot → Slot = λ t. record t { state = running } in
    let save : Slot → Slot = λ t. record t { saved_rsp = here } in
    let (v, at, is) =
      get_elem?-update_any (update c.job_table next run) me next save (run u)
        (get_elem?-update_self c.job_table next run u e) in
    let priority : v.priority ≡ u.priority = elim is [
      | inl a ↦ ap (λ w. w.priority) a
      | inr a ↦ ap (λ w. w.priority) a
    ] in
    let here_cur : some next ≡ some cur = one.current in
    let next_cur : next ≡ cur = ground (arith, here_cur) in
    let vt : some v ≡ some t =
      sym at ∙ (ap (get_elem? (switch_to c me next s here).1.job_table) next_cur ∙ one.here) in
    let tv : t.priority ≡ u.priority = ground (arith, vt, priority) in
    (
      cur,
      t,
      one,
      rw tv (
          update-NoneAbove (update c.job_table next run) me u.priority save (λ w. refl) (λ w r. r)
            (update-NoneAbove c.job_table next u.priority run (λ w. refl) (λ w r. cc) above)),
    )

wait-halts :
    (c : Core) (q here cur : ℕ)
    → c.current_job ≡ some cur
    → pick_highest_priority_ready (update c.job_table cur (waiting_slot q)) ≡ none
    → (job_exec_wait c q here).0 ≡ halts
unfolding job_exec_wait
wait-halts c q here cur e n = rw (e, job_exec_wait) (rw n refl)

wait-switch :
    (c : Core) (q here cur n : ℕ) (t : Slot)
    → c.current_job ≡ some cur
    → pick_highest_priority_ready (update c.job_table cur (waiting_slot q)) ≡ some (n, t)
    → job_exec_wait c q here
      ≡ switch_to (record c { job_table = update c.job_table cur (waiting_slot q) }) cur n t here
unfolding job_exec_wait
wait-switch c q here cur n t e p = rw (e, job_exec_wait) (rw p refl)

-- When the job that runs blocks itself with job_exec_wait and another is ready, the first in the table
-- of the ready jobs of the highest priority resumes with its saved context, the caller is blocked on
-- the queue with its own context saved, and every other job keeps its slot; then one job runs and no
-- ready job has a higher priority. The core waits for ever exactly when no job is ready.
pub wait-Top :
    (c : Core) (q here cur : ℕ) (s : Slot)
    → OneRunning c cur s
    → (((i : ℕ) (t : Slot) → get_elem? c.job_table i ≡ some t → t.state ≢ ready)
        × ((job_exec_wait c q here).0 ≡ halts))
      ⊎ (GaveWay c q here cur s (job_exec_wait c q here) × Top (job_exec_wait c q here).1)
wait-Top c q here cur s one =
    let table = update c.job_table cur (waiting_slot q) in
    let idle = blocked_Idle c cur s (waiting_slot q) one (λ t r. cc) in
    elim (Option-cases (pick_highest_priority_ready table)) [
      | inl n ↦ inl (
        none-blocked c cur s q one (best_of-none ready_slot table n),
        wait-halts c q here cur one.current n,
      )
      | inr ((next, t), e) ↦
          let high = best_of-Highest ready_slot table next t e in
          inr (
            subst (λ r. GaveWay c q here cur s r × Top r.1)
              (sym (wait-switch c q here cur next t one.current e))
              (
                switched-GaveWay c q here cur s next t one high,
                switch_to-Top (record c { job_table = table }) cur next t t here idle high.here
                    (λ i u at r. high.top i u at (ap is_ready r)),
              ))
    ]

kept-Top :
    (c : Core) (q here cur : ℕ) (s : Slot)
    → OneRunning c cur s
    → NoneAbove c.job_table s.priority
    → Top (job_exec_wake c q here).1
unfolding job_exec_wake
kept-Top c q here cur s one above = elim (Option-cases (highest_waiting q c.job_table)) [
  | inl n ↦ rw (n, job_exec_wake) (cur, s, one, above)
  | inr ((n, t), e) ↦
      let high = best_of-Highest (waits_on q) c.job_table n t e in
      let w = highest-Woken c cur s q n t one high in
      rw (e, job_exec_wake)
        (rw (preempts_lem c cur s n t woken_slot one w.other)
          (elim (Bool-cases (lt_int s.priority t.priority)) [
            | inl more ↦
                let above_t : NoneAbove c.job_table t.priority =
                  λ i u here_u r. let low = above i u here_u r in ground (arith, low, more) in
                rw more (
                  switch_to-Top
                    (record c { job_table = update (update c.job_table n woken_slot) cur yielded })
                    cur n t (woken_slot t) here w.idle w.at
                    (ready-NoneAbove (update c.job_table n woken_slot) cur t.priority yielded s
                      w.stays.here (ground (arith, more))
                      (ready-NoneAbove c.job_table n t.priority woken_slot t high.here
                        (ground arith) above_t)))
            | inr less ↦ rw less (
              cur,
              s,
              w.stays,
              ready-NoneAbove c.job_table n s.priority woken_slot t high.here less above,
            )
          ]))
]

-- When no ready job has a higher priority than the one that runs, this is still so after job_exec_wake.
-- If no job waits on the queue, it changes nothing; otherwise the first of the highest priority that
-- waits there runs at once with its saved context, if it has a higher priority than the caller, which
-- is then ready with its own context saved, and else it is ready and the caller goes on.
pub wake-Top :
    (c : Core) (q here cur : ℕ) (s : Slot)
    → OneRunning c cur s
    → NoneAbove c.job_table s.priority
    → (((i : ℕ) (t : Slot) → get_elem? c.job_table i ≡ some t → waits_on q t ≡ false)
          × (job_exec_wake c q here ≡ (returns, c))
        ⊎ WokeHighest c q here cur s (job_exec_wake c q here))
      × Top (job_exec_wake c q here).1
wake-Top c q here cur s one above =
    (wake-Highest c q here cur s one, kept-Top c q here cur s one above)
