-- ===== src/Scheduler/Worker.antt =====
-- scheduler_run of coreinit/scheduler.c: the rounds of a worker, and what they ask of the scheduler.
use otos_coreinit.Base.{
  ℕ, ◌≡◌, ◌≢◌, refl, sym, ◌∙◌, ap, List, [], ◌∷◌, ◌++◌, Option, none, some, arith, ◌==◌,
  if◌then◌else◌, ltb, get_elem?, ◌<◌, lt→ltb, ==_refl,
}
use otos_coreinit.Kernel.{Kernel}
use otos_coreinit.Wire.{word}
use otos_coreinit.Cluster.State.{Cluster, JobSlot, at_least}
use otos_coreinit.Cluster.Pick.{pick_next_for_node}
use otos_coreinit.Cluster.JobHandlers.{handle_get_next_job, job_finished}
use otos_coreinit.Cluster.Dispatch.{method_of, dispatch, handler}
use otos_coreinit.Cluster.Traces.{Call, run}
use otos_coreinit.Scheduler.{Client, Invoke, scheduler_node_id, scheduler_call}

-- `JOB_TYPE_COUNT`
abbrev pub job_type_count : ℕ
job_type_count = 13

-- A job: its arguments, its own handle, and what it returns: a result and a block id (for
-- JOB_FINISHED the completion value).
abbrev pub JobFn : Type 0 → Type 0
JobFn S = ℕ → ℕ → ℕ → S → (ℕ × ℕ) × S

-- The two tables of job functions; a function of the second kind gets the first argument only.
pub record Tables (S : Type 0) : Type 0 where
  pub values : ℕ → Option (JobFn S)
  pub plain : ℕ → Option (JobFn S)

-- What a round of the loop came to.
pub data Round : Type 0 where
  no_reply no_job : Round
  ran : ℕ → ℕ → Round

module _ {S : Type 0} where
  abbrev pub register_job_type : Tables S → ℕ → JobFn S → Tables S
  register_job_type t type f =
      if ltb type job_type_count
      then record t { plain = λ x. if x == type then some f else t.plain x }
      else t

  abbrev pub register_value_job_type : Tables S → ℕ → JobFn S → Tables S
  register_value_job_type t type f =
      if ltb type job_type_count
      then record t { values = λ x. if x == type then some f else t.values x }
      else t

  -- An unknown type is reported as finished.
  pub run_job : Tables S → ℕ → ℕ → ℕ → ℕ → S → (ℕ × ℕ) × S
  run_job t type arg0 arg1 self s =
      if ltb type job_type_count
      then (elim (t.values type) [
        | some f ↦ f arg0 arg1 self s
        | none ↦ elim (t.plain type) [ some f ↦ f arg0 0 self s | none ↦ ((job_finished, 0), s) ]
      ])
      else ((job_finished, 0), s)

abbrev pub report_words : ℕ → ℕ → ℕ → List ℕ
report_words job_id result block_id =
    job_id ∷ result ∷ block_id ∷ (if result == job_finished then block_id else 0) ∷ []

module _ (S : Type 0) (invoke : Invoke S) (c : Client) (t : Tables S) where
  -- What the loop does with the reply to GET_NEXT_JOB.
  pub act_on : Option (List ℕ) → S → Round × S
  act_on reply s1 = elim (at_least 56 reply) [
    | none ↦ (no_reply, s1)
    | some out ↦
        let ((result, block_id), s2) =
          run_job t (word out 2) (word out 3) (word out 4) (word out 1) s1 in
        if word out 0 == 0 then (no_job, s1) else (
          ran (word out 1) result,
          (scheduler_call S invoke c 7 (report_words (word out 1) result block_id) 0 s2).1,
        )
  ]

  -- One turn of the loop. (Waiting for an interrupt and the idle hook change nothing here.)
  pub round : S → Round × S
  round s =
      let (reply, s1) = scheduler_call S invoke c 6 (scheduler_node_id c ∷ []) 64 s in
      act_on reply s1

-- A client whose calls reach the cluster scheduler.
abbrev pub reach : (k : Kernel) → Invoke (Cluster k)
reach k invoke_fn target method_id words cap s = handler k s method_id words cap

module _ (k : Kernel) (c : Client) (t : Tables (Cluster k)) where
  next_reply :
      (s : Cluster k) (x : JobSlot)
      → (pick_next_for_node k s (scheduler_node_id c)).0.0 ≢ 0
      → get_elem?
          (pick_next_for_node k s (scheduler_node_id c)).1.jobs
          (pick_next_for_node k s (scheduler_node_id c)).0.1
        ≡ some x
      → handler k s 6 (scheduler_node_id c ∷ []) 64 ≡ (
        some (
            1
            ∷ (pick_next_for_node k s (scheduler_node_id c)).0.0
            ∷ x.info.type
            ∷ x.info.arg0
            ∷ x.info.arg1
            ∷ []),
        (pick_next_for_node k s (scheduler_node_id c)).1,
      )
  unfolding handler method_of dispatch handle_get_next_job
  next_reply s x some_job at = ground (arith, some_job, at)

  act_on-ran :
      (h type arg0 arg1 result block_id : ℕ) (s1 s2 : Cluster k)
      → run_job t type arg0 arg1 h s1 ≡ ((result, block_id), s2)
      → act_on (Cluster k) (reach k) c t (some (1 ∷ h ∷ type ∷ arg0 ∷ arg1 ∷ [])) s1
        ≡ (ran h result, (handler k s2 7 (report_words h result block_id) 0).1)
  unfolding act_on at_least scheduler_call
  act_on-ran h type arg0 arg1 result block_id s1 s2 e = rw e refl

  run-append : (s : Cluster k) (qs rs : List Call) → run k s (qs ++ rs) ≡ run k (run k s qs) rs
  unfolding run
  run-append s [] rs = refl
  run-append s (q ∷ qs) rs = run-append (handler k s q.method_id q.words q.cap).1 qs rs

  round-runs :
      (s : Cluster k) (x : JobSlot) (result block_id : ℕ) (qs : List Call)
      → (pick_next_for_node k s (scheduler_node_id c)).0.0 ≢ 0
      → get_elem?
          (pick_next_for_node k s (scheduler_node_id c)).1.jobs
          (pick_next_for_node k s (scheduler_node_id c)).0.1
        ≡ some x
      → run_job t x.info.type x.info.arg0 x.info.arg1
          (pick_next_for_node k s (scheduler_node_id c)).0.0
          (pick_next_for_node k s (scheduler_node_id c)).1
        ≡ ((result, block_id), run k (pick_next_for_node k s (scheduler_node_id c)).1 qs)
      → round (Cluster k) (reach k) c t s ≡ (
        ran (pick_next_for_node k s (scheduler_node_id c)).0.0 result,
        run k s (
            record { method_id = 6; words = scheduler_node_id c ∷ []; cap = 64 }
            ∷ (qs
                ++ (record {
                  method_id = 7;
                  words =
                      report_words
                        (pick_next_for_node k s (scheduler_node_id c)).0.0
                        result
                        block_id;
                  cap = 0;
                }
                    ∷ []))),
      )
  unfolding round scheduler_call run
  round-runs s x result block_id qs some_job at effect =
      let h = (pick_next_for_node k s (scheduler_node_id c)).0.0 in
      let s1 = (pick_next_for_node k s (scheduler_node_id c)).1 in
      let reply = next_reply s x some_job at in
      let report : Call = record {
        method_id = 7;
        words = report_words h result block_id;
        cap = 0;
      } in
      rw reply (
        act_on-ran h x.info.type x.info.arg0 x.info.arg1 result block_id s1 (run k s1 qs) effect
        ∙ ap (λ (d : Cluster k). (ran h result, d)) (sym (run-append s1 qs (report ∷ [])))
        ∙ ap (λ (d : Option (List ℕ) × Cluster k). (ran h result, run k d.1 (qs ++ report ∷ [])))
            (sym reply))

run_job-register :
    {k : Kernel} (t : Tables (Cluster k)) (type arg0 arg1 self : ℕ) (f : JobFn (Cluster k))
    (s : Cluster k)
    → type < 13
    → run_job (register_value_job_type t type f) type arg0 arg1 self s ≡ f arg0 arg1 self s
unfolding run_job
run_job-register t type arg0 arg1 self f s known =
    rw (lt→ltb type 13 known) (rw (==_refl type) refl)

-- A round in which a job was picked whose type has the registered value function `f`: `f` gets the two
-- arguments of that job and its handle. If `f` makes the calls `qs` of the scheduler and returns a
-- result and a block id, the round is this run of calls: GET_NEXT_JOB for the worker's node, then `qs`,
-- then one REPORT_JOB_RESULT of four words: the handle of that very job, the result, the block id,
-- and the block id again as the completion value if the result is JOB_FINISHED, else 0.
pub round-run :
    (k : Kernel) (c : Client) (t : Tables (Cluster k)) (s : Cluster k) (x : JobSlot)
    (f : JobFn (Cluster k)) (result block_id : ℕ) (qs : List Call)
    → (pick_next_for_node k s (scheduler_node_id c)).0.0 ≢ 0
    → get_elem?
        (pick_next_for_node k s (scheduler_node_id c)).1.jobs
        (pick_next_for_node k s (scheduler_node_id c)).0.1
      ≡ some x
    → x.info.type < 13
    → f x.info.arg0 x.info.arg1
        (pick_next_for_node k s (scheduler_node_id c)).0.0
        (pick_next_for_node k s (scheduler_node_id c)).1
      ≡ ((result, block_id), run k (pick_next_for_node k s (scheduler_node_id c)).1 qs)
    → round (Cluster k) (reach k) c (register_value_job_type t x.info.type f) s ≡ (
      ran (pick_next_for_node k s (scheduler_node_id c)).0.0 result,
      run k s (
          record { method_id = 6; words = scheduler_node_id c ∷ []; cap = 64 }
          ∷ (qs
              ++ (record {
                method_id = 7;
                words =
                    (pick_next_for_node k s (scheduler_node_id c)).0.0
                    ∷ result
                    ∷ block_id
                    ∷ (if result == 1 then block_id else 0)
                    ∷ [];
                cap = 0;
              }
                  ∷ []))),
    )
round-run k c t s x f result block_id qs some_job at known effect =
    round-runs k c (register_value_job_type t x.info.type f) s x result block_id qs some_job at (
      run_job-register t x.info.type x.info.arg0 x.info.arg1
        (pick_next_for_node k s (scheduler_node_id c)).0.0 f
        (pick_next_for_node k s (scheduler_node_id c)).1 known
      ∙ effect)
