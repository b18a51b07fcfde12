-- ===== src/JobExec/Context.antt =====
-- coreinit/job_exec.c: the saved contexts of the jobs that do not run.
use otos_coreinit.Base.{
  ℕ, ◌≡◌, ◌≢◌, refl, sym, ap, ◌∙◌, subst, false, List, [], ◌∷◌, some, arith, get_elem?, lt_int, inl,
  inr, Bool-cases, Option-cases,
}
use otos_coreinit.JobExec.{
  ready, running, blocked, Slot, Core, Goes, returns, resumes, halts, undefined, update, switch_to,
  first_at, is_ready, is_unused, waits_on, job_exec_spawn, job_exec_wait, job_exec_wake,
  pick_highest_priority_ready, highest_waiting,
}
use otos_coreinit.JobExec.Best.{best_of-Highest}
use otos_coreinit.JobExec.Table.{
  get_elem?-update_self, get_elem?-update_ne, get_elem?-update_any, first_at-get_elem?,
}
use otos_coreinit.JobExec.Running.{
  OneRunning, Running, preempts_lem, highest-Woken, woken_slot, yielded, wait-Running, GoesOn,
}
use otos_coreinit.JobExec.Calls.{Op, spawn, wait, wake, state_of, step, call, run, step-Running}

-- The context at `rsp` is saved for the job `me`, whose slot is taken.
pub record Saved (ss : List Slot) (me rsp : ℕ) : Type 0 where
  pub slot : Slot
  pub at : get_elem? ss me ≡ some slot
  pub saved : slot.saved_rsp ≡ rsp
  pub taken : is_unused slot.state ≡ false

update-Saved :
    (ss : List Slot) (n me rsp : ℕ) (f : Slot → Slot)
    → ((s : Slot) → (f s).saved_rsp ≡ s.saved_rsp)
    → ((s : Slot) → is_unused (f s).state ≡ false)
    → Saved ss me rsp
    → Saved (update ss n f) me rsp
update-Saved ss n me rsp f same taken h =
    let (v, at, is) = get_elem?-update_any ss n me f h.slot h.at in
    record {
      slot = v;
      at = at;
      saved = elim is [
        | inl a ↦ ap (λ u. u.saved_rsp) a ∙ h.saved
        | inr a ↦ ap (λ u. u.saved_rsp) a ∙ (same h.slot ∙ h.saved)
      ];
      taken = elim is [
        | inl a ↦ ap (λ u. is_unused u.state) a ∙ h.taken
        | inr a ↦ ap (λ u. is_unused u.state) a ∙ taken h.slot
      ];
    }

other-Saved :
    (ss : List Slot) (n me rsp : ℕ) (f : Slot → Slot)
    → n ≢ me
    → Saved ss me rsp
    → Saved (update ss n f) me rsp
other-Saved ss n me rsp f other h = record {
  slot = h.slot;
  at = get_elem?-update_ne ss n me f other ∙ h.at;
  saved = h.saved;
  taken = h.taken;
}

-- After a call the context is still saved, and if the job is now the current one the core went on
-- with that context.
abbrev pub KeepsContext : ℕ → ℕ → Goes × Core → Type 0
KeepsContext me rsp (g, c) = Saved c.job_table me rsp × (c.current_job ≡ some me → g ≡ resumes rsp)

switch_to-Keeps :
    (c : Core) (cur next : ℕ) (s u : Slot) (here me rsp : ℕ)
    → cur ≢ me
    → get_elem? c.job_table next ≡ some u
    → u.saved_rsp ≡ s.saved_rsp
    → Saved c.job_table me rsp
    → KeepsContext me rsp (switch_to c cur next s here)
switch_to-Keeps c cur next s u here me rsp other at same h = (
  other-Saved (update c.job_table next (λ t. record t { state = running })) cur me rsp
      (λ t. record t { saved_rsp = here }) other
      (update-Saved c.job_table next me rsp (λ t. record t { state = running }) (λ t. refl)
        (λ t. refl) h),
  λ e.
      let same_job : next ≡ me = ground (arith, e) in
      let slots : some u ≡ some h.slot = sym at ∙ (ap (get_elem? c.job_table) same_job ∙ h.at) in
      let slot : u.saved_rsp ≡ h.slot.saved_rsp = ground (arith, slots) in
      ap resumes (sym same ∙ (slot ∙ h.saved)),
)

wait-Keeps :
    (c : Core) (q here cur : ℕ) (s : Slot) (me rsp : ℕ)
    → OneRunning c cur s
    → cur ≢ me
    → Saved c.job_table me rsp
    → KeepsContext me rsp (job_exec_wait c q here)
unfolding job_exec_wait
wait-Keeps c q here cur s me rsp one other h =
    let f : Slot → Slot = λ t. record t { state = blocked; waiting_on = q } in
    let table = update c.job_table cur f in
    let h1 = update-Saved c.job_table cur me rsp f (λ t. refl) (λ t. refl) h in
    rw (one.current, job_exec_wait)
      (elim (Option-cases (pick_highest_priority_ready table)) [
        | inl n ↦ rw n (h1, λ e. absurd (other (ground (arith, e, one.current))))
        | inr ((next, t), e) ↦ rw (e) (
            switch_to-Keeps (record c { job_table = table }) cur next t t here me rsp other
              (best_of-Highest (λ u. is_ready u.state) table next t e).here refl h1)
      ])

wake-Keeps :
    (c : Core) (q here cur : ℕ) (s : Slot) (me rsp : ℕ)
    → OneRunning c cur s
    → cur ≢ me
    → Saved c.job_table me rsp
    → KeepsContext me rsp (job_exec_wake c q here)
unfolding job_exec_wake
wake-Keeps c q here cur s me rsp one other h = elim (Option-cases (highest_waiting q c.job_table)) [
  | inl n ↦ rw (n, job_exec_wake) (h, λ e. absurd (other (ground (arith, e, one.current))))
  | inr ((n, t), e) ↦
      let w = highest-Woken c cur s q n t one (best_of-Highest (waits_on q) c.job_table n t e) in
      let h1 = update-Saved c.job_table n me rsp woken_slot (λ u. refl) (λ u. refl) h in
      rw (e, job_exec_wake)
        (rw (preempts_lem c cur s n t woken_slot one w.other)
          (elim (Bool-cases (lt_int s.priority t.priority)) [
            | inl more ↦ rw more (
                switch_to-Keeps
                  (record c { job_table = update (update c.job_table n woken_slot) cur yielded })
                  cur n t (woken_slot t) here me rsp other w.at refl
                  (update-Saved (update c.job_table n woken_slot) cur me rsp yielded (λ u. refl)
                    (λ u. refl) h1))
            | inr less ↦ rw less (h1, λ e. absurd (other (ground (arith, e, one.current))))
          ]))
]

spawn-Keeps :
    (c : Core) (saved_rsp priority cur : ℕ) (s : Slot) (me rsp : ℕ)
    → OneRunning c cur s
    → cur ≢ me
    → Saved c.job_table me rsp
    → KeepsContext me rsp (returns, (job_exec_spawn c saved_rsp priority).1)
unfolding job_exec_spawn
spawn-Keeps c saved_rsp priority cur s me rsp one other h =
    elim (Option-cases (first_at (λ t. is_unused t.state) 0 c.job_table)) [
      | inl n ↦ rw (n, job_exec_spawn) (h, λ e. absurd (other (ground (arith, e, one.current))))
      | inr (i, e) ↦
          let (u, at, free) = first_at-get_elem? (λ t. is_unused t.state) c.job_table i e in
          let apart : i ≢ me = λ same.
            let slots : some u ≡ some h.slot = sym at ∙ (ap (get_elem? c.job_table) same ∙ h.at) in
            ground (arith, slots, h.taken, free) in
          rw (e, job_exec_spawn)
            (
              other-Saved c.job_table i me rsp
                  (λ t. record {
                    saved_rsp = saved_rsp;
                    priority = priority;
                    state = ready;
                    waiting_on = 0;
                  })
                  apart h,
              λ e. absurd (other (ground (arith, e, one.current))),
            )
    ]

call-Keeps :
    (op : Op) (c : Core) (me rsp : ℕ)
    → Running c
    → c.current_job ≢ some me
    → Saved c.job_table me rsp
    → KeepsContext me rsp (call op c)
call-Keeps op c me rsp (cur, s, one) away h =
    let other : cur ≢ me = λ same. away (one.current ∙ ap some same) in kept op other
  where
    kept : (op : Op) → cur ≢ me → KeepsContext me rsp (call op c)
    kept (spawn saved_rsp priority) other =
        spawn-Keeps c saved_rsp priority cur s me rsp one other h
    kept (wait q here) other = wait-Keeps c q here cur s me rsp one other h
    kept (wake q here) other = wake-Keeps c q here cur s me rsp one other h

-- The job is not the current one before, between and after these calls.
abbrev pub Asleep : ℕ → List Op → Core → Type 0
Asleep me [] c = c.current_job ≢ some me
Asleep me (op ∷ ops) c =
    (c.current_job ≢ some me) × ((c' : Core) → step op c ≡ some c' → Asleep me ops c')

state_of-after : (r : Goes × Core) (c : Core) → state_of r ≡ some c → r.1 ≡ c
state_of-after (returns, b) c e = ground (arith, e)
state_of-after (resumes rsp, b) c e = ground (arith, e)
state_of-after (halts, b) c e = cc
state_of-after (undefined, b) c e = cc

Asleep-Saved :
    (ops : List Op) (c c2 : Core) (me rsp : ℕ)
    → Running c
    → Saved c.job_table me rsp
    → Asleep me ops c
    → run ops c ≡ some c2
    → Running c2 × Saved c2.job_table me rsp × (c2.current_job ≢ some me)
Asleep-Saved [] c c2 me rsp one h away e =
    let same : c ≡ c2 = ground (arith, e) in
    subst (λ x. Running x × Saved x.job_table me rsp × (x.current_job ≢ some me)) same
      (one, h, away)
Asleep-Saved (op ∷ ops) c c2 me rsp one h (away, later) e = elim (step-Running op c one) [
  | inl stops ↦ absurd (cc (rw (stops, run) at e))
  | inr (c', e', one') ↦
      Asleep-Saved ops c' c2 me rsp one'
        (subst (λ x. Saved x.job_table me rsp) (state_of-after (call op c) c' e')
          (call-Keeps op c me rsp one away h).0)
        (later c' e') (rw (e', run) at e)
]

waited-Saved :
    (c c1 : Core) (me : ℕ) (s : Slot) (q here rsp : ℕ)
    → OneRunning c me s
    → job_exec_wait c q here ≡ (resumes rsp, c1)
    → Saved c1.job_table me here
unfolding job_exec_wait
waited-Saved c c1 me s q here rsp one e =
    let f : Slot → Slot = λ t. record t { state = blocked; waiting_on = q } in
    let run : Slot → Slot = λ t. record t { state = running } in
    let save : Slot → Slot = λ t. record t { saved_rsp = here } in
    let table = update c.job_table me f in
    let e1 = rw (one.current, job_exec_wait) at e in
    elim (Option-cases (pick_highest_priority_ready table)) [
      | inl n ↦ let e2 = rw n at e1 in absurd (cc (ap (λ r. r.0) e2))
      | inr ((next, t), picked) ↦
          let (v, at, is) =
            get_elem?-update_any table next me run (f s)
              (get_elem?-update_self c.job_table me f s one.here) in
          let after : Saved (update (update table next run) me save) me here = record {
            slot = save v;
            at = get_elem?-update_self (update table next run) me save v at;
            saved = refl;
            taken = elim is [
              | inl a ↦ ap (λ u. is_unused u.state) a
              | inr a ↦ ap (λ u. is_unused u.state) a
            ];
          } in
          let e2 = rw picked at e1 in
          subst (λ x. Saved x.job_table me here) (ap (λ r. r.1) e2) after
    ]

-- A job that blocks itself with job_exec_wait, while another is ready, continues exactly with the
-- context that was saved for it there: whatever the other jobs call as long as it does not run, the
-- call that makes it the current job again is a switch to that context.
pub waited-Resumes :
    (c c1 c2 : Core) (me : ℕ) (s : Slot) (q here rsp : ℕ) (ops : List Op) (op : Op)
    → OneRunning c me s
    → job_exec_wait c q here ≡ (resumes rsp, c1)
    → Asleep me ops c1
    → run ops c1 ≡ some c2
    → (call op c2).1.current_job ≡ some me
    → (call op c2).0 ≡ resumes here
waited-Resumes c c1 c2 me s q here rsp ops op one e asleep ran back =
    let one1 : Running c1 = subst GoesOn e (wait-Running c q here (me, s, one)) in
    let (one2, saved, away) =
      Asleep-Saved ops c1 c2 me here one1 (waited-Saved c c1 me s q here rsp one e) asleep ran in
    (call-Keeps op c2 me here one2 away saved).1 back
