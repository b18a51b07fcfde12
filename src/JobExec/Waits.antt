-- ===== src/JobExec/Waits.antt =====
-- coreinit/job_exec.c: whom job_exec_wait gives the core to.
use otos_coreinit.Base.{
  ℕ, ◌≡◌, ◌≢◌, refl, sym, ap, ◌∙◌, Bool, true, false, some, arith, get_elem?, false≢true, inl, inr,
}
use otos_coreinit.JobExec.{
  JobState, unused, ready, running, blocked, Slot, Core, Goes, resumes, update, switch_to, is_ready,
}
use otos_coreinit.JobExec.Best.{Highest}
use otos_coreinit.JobExec.Table.{get_elem?-update_self, get_elem?-update_ne, of_get_elem?-update}
use otos_coreinit.JobExec.Running.{OneRunning}

abbrev pub ready_slot : Slot → Bool
ready_slot u = is_ready u.state

abbrev pub waiting_slot : ℕ → Slot → Slot
waiting_slot q u = record u { state = blocked; waiting_on = q }

-- The job that ran is blocked on the queue with its context saved at `at`, and the core went on with
-- the job `n`, whose slot `t` was the first of the highest priority that was ready. Every other job
-- keeps its slot.
pub record GaveWay (c : Core) (q at cur : ℕ) (s : Slot) (r : Goes × Core) : Type 0 where
  pub n : ℕ
  pub t : Slot
  pub highest : Highest ready_slot c.job_table n t
  pub was_ready : t.state ≡ ready
  pub goes : r.0 ≡ resumes t.saved_rsp
  pub current : r.1.current_job ≡ some n
  pub slot : get_elem? r.1.job_table n ≡ some (record t { state = running })
  pub caller :
      get_elem? r.1.job_table cur
      ≡ some (record s { saved_rsp = at; state = blocked; waiting_on = q })
  pub others : (i : ℕ) → i ≢ n → i ≢ cur → get_elem? r.1.job_table i ≡ get_elem? c.job_table i

-- A slot that is ready is not the one of the job that runs.
pub ready_ne :
    (c : Core) (cur : ℕ) (s : Slot) (i : ℕ) (u : Slot)
    → OneRunning c cur s
    → get_elem? c.job_table i ≡ some u
    → ready_slot u ≡ true
    → i ≢ cur
ready_ne c cur s i u one e is same =
    let same_slot : some u ≡ some s = sym e ∙ (ap (get_elem? c.job_table) same ∙ one.here) in
    let ran : u.state ≡ running = ground (arith, same_slot, one.runs) in ground (arith, is, ran)

-- What is ready after the job that runs blocked itself was so before.
unblocked :
    (c : Core) (cur q n : ℕ) (t : Slot)
    → get_elem? (update c.job_table cur (waiting_slot q)) n ≡ some t
    → ready_slot t ≡ true
    → (n ≢ cur) × (get_elem? c.job_table n ≡ some t)
unblocked c cur q n t e is = elim (of_get_elem?-update c.job_table cur n (waiting_slot q) t e) [
  | inl (same, u, before, at) ↦ absurd (false≢true (ap ready_slot at ∙ is))
  | inr (other, before) ↦ ((λ d. other (sym d)), before)
]

pub Highest-blocked :
    (c : Core) (cur : ℕ) (s : Slot) (q n : ℕ) (t : Slot)
    → OneRunning c cur s
    → Highest ready_slot (update c.job_table cur (waiting_slot q)) n t
    → (n ≢ cur) × Highest ready_slot c.job_table n t
Highest-blocked c cur s q n t one high =
    let stays : (i : ℕ) (u : Slot)
        → get_elem? c.job_table i ≡ some u
        → ready_slot u ≡ true
        → get_elem? (update c.job_table cur (waiting_slot q)) i ≡ some u =
      λ i u e is.
        get_elem?-update_ne c.job_table cur i (waiting_slot q)
          (λ d. ready_ne c cur s i u one e is (sym d))
        ∙ e in
    let (other, before) = unblocked c cur q n t high.here high.passes in
    (
      other,
      record {
        here = before;
        passes = high.passes;
        top = λ i u e is. high.top i u (stays i u e is) is;
        first = λ i u earlier e is. high.first i u earlier (stays i u e is) is;
      },
    )

is_ready→ready : (x : JobState) → is_ready x ≡ true → x ≡ ready
is_ready→ready unused e = cc
is_ready→ready ready e = refl
is_ready→ready running e = cc
is_ready→ready blocked e = cc

pub switched-GaveWay :
    (c : Core) (q here cur : ℕ) (s : Slot) (n : ℕ) (t : Slot)
    → OneRunning c cur s
    → Highest ready_slot (update c.job_table cur (waiting_slot q)) n t
    → GaveWay c q here cur s
        (switch_to (record c { job_table = update c.job_table cur (waiting_slot q) }) cur n t here)
switched-GaveWay c q here cur s n t one high =
    let run : Slot → Slot = λ u. record u { state = running } in
    let save : Slot → Slot = λ u. record u { saved_rsp = here } in
    let waits = update c.job_table cur (waiting_slot q) in
    let (other, before) = Highest-blocked c cur s q n t one high in
    record {
      n = n;
      t = t;
      highest = before;
      was_ready = is_ready→ready t.state high.passes;
      goes = refl;
      current = refl;
      slot =
          get_elem?-update_ne (update waits n run) cur n save (λ d. other (sym d))
          ∙ get_elem?-update_self waits n run t high.here;
      caller = get_elem?-update_self (update waits n run) cur save (waiting_slot q s) (
          get_elem?-update_ne waits n cur run other
          ∙ get_elem?-update_self c.job_table cur (waiting_slot q) s one.here);
      others = λ i not_n not_cur.
          get_elem?-update_ne (update waits n run) cur i save (λ d. not_cur (sym d))
          ∙ (get_elem?-update_ne waits n i run (λ d. not_n (sym d))
              ∙ get_elem?-update_ne c.job_table cur i (waiting_slot q) (λ d. not_cur (sym d)));
    }

-- With nothing ready once the job that runs is blocked, nothing was ready before.
pub none-blocked :
    (c : Core) (cur : ℕ) (s : Slot) (q : ℕ)
    → OneRunning c cur s
    → ((i : ℕ) (t : Slot)
        → get_elem? (update c.job_table cur (waiting_slot q)) i ≡ some t
        → ready_slot t ≡ false)
    → (i : ℕ) (t : Slot) → get_elem? c.job_table i ≡ some t
    → t.state ≢ ready
none-blocked c cur s q one nothing i t e is =
    let passed : ready_slot t ≡ true = ap is_ready is in
    let stays =
      get_elem?-update_ne c.job_table cur i (waiting_slot q)
        (λ d. ready_ne c cur s i t one e passed (sym d))
      ∙ e in
    false≢true (sym (nothing i t stays) ∙ passed)
