-- ===== src/JobExec.antt =====
-- coreinit/job_exec.c: the jobs of one core, which yield onto a queue and are woken from it.
-- The state is what struct core_state keeps for it; a core without that struct is not modelled. A
-- queue is known by its address, 0 for NULL, and a priority is an int's 32-bit pattern.
mod Best
mod Table
mod Running
mod Calls
mod Priority
mod Started
mod Waits
mod Wakes
mod Context
mod Stacks
mod Examples
use otos_coreinit.Base.{
  ℕ, zero, suc, ◌+◌, ◌*◌, Bool, true, false, List, [], ◌∷◌, Option, none, some, ltb, lt_int, ◌==◌,
  not, if◌then◌else◌, ◌&&◌, length, get_elem?, set, replicate,
}

abbrev pub max_resident : ℕ
max_resident = 16

abbrev pub stack_size : ℕ
stack_size = 0x8000

pub data JobState : Type 0 where
  unused ready running blocked : JobState

pub record Slot : Type 0 where
  pub saved_rsp : ℕ
  pub priority : ℕ
  pub state : JobState
  pub waiting_on : ℕ

-- `current_job` is none for -1, and `job_stacks` the address of the stacks.
pub record Core : Type 0 where
  pub job_table : List Slot
  pub job_stack_used : List Bool
  pub current_job : Option ℕ
  pub job_stacks : ℕ

-- How a call goes on: it returns to its caller, the core goes on with the context that was saved at
-- an address, it waits for interrupts for ever, or the code reads job_table[-1].
pub data Goes : Type 0 where
  returns : Goes
  resumes : ℕ → Goes
  halts undefined : Goes

-- The first slot or stack that passes a test, counted from `i`.
abbrev pub first_at {ℓ} : {A : Type ℓ} → (A → Bool) → ℕ → List A → Option ℕ
first_at test i [] = none
first_at test i (s ∷ ss) = elim (test s) [ true ↦ some i | false ↦ first_at test (i + 1) ss ]

-- The slot and the top of the stack; none if all are in use.
pub job_exec_alloc_stack : Core → Option (ℕ × ℕ) × Core
job_exec_alloc_stack c = elim (first_at not 0 c.job_stack_used) [
  | none ↦ (none, c)
  | some i ↦ (
    some (i, c.job_stacks + i * stack_size + stack_size),
    record c { job_stack_used = set c.job_stack_used i true },
  )
]

-- A slot out of range changes nothing.
pub job_exec_free_stack : Core → ℕ → Core
job_exec_free_stack c slot =
    if ltb slot max_resident
    then record c { job_stack_used = set c.job_stack_used slot false }
    else c

abbrev pub outranks : Slot → Option (ℕ × Slot) → Bool
outranks s none = true
outranks s (some (j, b)) = lt_int b.priority s.priority

-- The loop over the table that keeps the first slot of the highest priority that passes a test.
pub best_of : (Slot → Bool) → ℕ → List Slot → Option (ℕ × Slot) → Option (ℕ × Slot)
best_of test i [] best = best
best_of test i (s ∷ ss) best =
    best_of test (i + 1) ss (if test s && outranks s best then some (i, s) else best)

abbrev pub is_ready : JobState → Bool
is_ready unused = false
is_ready ready = true
is_ready running = false
is_ready blocked = false

abbrev pub is_unused : JobState → Bool
is_unused unused = true
is_unused ready = false
is_unused running = false
is_unused blocked = false

abbrev pub is_blocked : JobState → Bool
is_blocked unused = false
is_blocked ready = false
is_blocked running = false
is_blocked blocked = true

abbrev pub waits_on : ℕ → Slot → Bool
waits_on q s = is_blocked s.state && s.waiting_on == q

abbrev pub pick_highest_priority_ready : List Slot → Option (ℕ × Slot)
pick_highest_priority_ready table = best_of (λ s. is_ready s.state) 0 table none

abbrev pub highest_waiting : ℕ → List Slot → Option (ℕ × Slot)
highest_waiting q table = best_of (waits_on q) 0 table none

-- A write to the fields of a slot.
abbrev pub update : List Slot → ℕ → (Slot → Slot) → List Slot
update [] i f = []
update (s ∷ ss) zero f = f s ∷ ss
update (s ∷ ss) (suc i) f = s ∷ update ss i f

pub job_exec_spawn : Core → ℕ → ℕ → Option ℕ × Core
job_exec_spawn c saved_rsp priority = elim (first_at (λ s. is_unused s.state) 0 c.job_table) [
  | none ↦ (none, c)
  | some i ↦ (
    some i,
    record c {
      job_table = update c.job_table i (λ t. record {
        saved_rsp = saved_rsp;
        priority = priority;
        state = ready;
        waiting_on = 0;
      });
    },
  )
]

-- job_exec_switch from the job `me` to the job `next`, whose slot is `s`: the context of `me` is saved
-- at `here`, and the core goes on with what was saved for `next`.
abbrev pub switch_to : Core → ℕ → ℕ → Slot → ℕ → Goes × Core
switch_to c me next s here = (
  resumes s.saved_rsp,
  record c {
    job_table =
        update (update c.job_table next (λ t. record t { state = running })) me
          (λ t. record t { saved_rsp = here });
    current_job = some next;
  },
)

pub job_exec_wait : Core → ℕ → ℕ → Goes × Core
job_exec_wait c q here = elim c.current_job [
  | none ↦ (undefined, c)
  | some me ↦
      let c1 : Core = record c {
        job_table = update c.job_table me (λ t. record t { state = blocked; waiting_on = q });
      } in
      elim (pick_highest_priority_ready c1.job_table) [
        | none ↦ (halts, c1)
        | some (next, s) ↦ switch_to c1 me next s here
      ]
]

-- The current job against the one that was woken.
abbrev pub preempts : Core → Slot → Option ℕ
preempts c s = elim c.current_job [
  | none ↦ none
  | some cur ↦ elim (get_elem? c.job_table cur) [
    | none ↦ none
    | some t ↦ if lt_int t.priority s.priority then some cur else none
  ]
]

pub job_exec_wake : Core → ℕ → ℕ → Goes × Core
job_exec_wake c q here = elim (highest_waiting q c.job_table) [
  | none ↦ (returns, c)
  | some (woken, s) ↦
      let c1 : Core = record c {
        job_table = update c.job_table woken (λ t. record t { state = ready; waiting_on = 0 });
      } in
      elim (preempts c1 s) [
        | none ↦ (returns, c1)
        | some cur ↦
            switch_to
              (record c1 { job_table = update c1.job_table cur (λ t. record t { state = ready }) })
              cur woken s here
      ]
]

-- Into a job for the first time, from a context that is no job's.
pub job_exec_run : Core → ℕ → Goes × Core
job_exec_run c slot = elim (get_elem? c.job_table slot) [
  | none ↦ (undefined, c)
  | some s ↦ (
    resumes s.saved_rsp,
    record c {
      job_table = update c.job_table slot (λ t. record t { state = running });
      current_job = some slot;
    },
  )
]
