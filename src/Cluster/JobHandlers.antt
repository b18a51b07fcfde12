-- ===== src/Cluster/JobHandlers.antt =====
-- The methods of coreinit/cluster_scheduler.c on jobs and mutexes.
pub mod Priority
pub mod Results
use otos_coreinit.Base.{
  ℕ, Bool, true, false, List, [], ◌∷◌, Option, none, some, ◌==◌, ◌&&◌, ◌||◌, not, if◌then◌else◌,
  ltb, leb, lt_int, to_int, get_elem?, get_or, ◌^◌,
}
use otos_coreinit.Kernel.{Kernel}
use otos_coreinit.Wire.{respond, word, flag}
use otos_coreinit.Cluster.Objects.{Job, mutex_try_lock_id, mutex_unlock_id, block_mutex, block_job}
use otos_coreinit.Cluster.State.{Cluster, JobSlot, max_mutexes, invoke, at_least}
use otos_coreinit.Cluster.Resources.{says_ok}
use otos_coreinit.Cluster.Jobs.{
  new_job, create_job_object, destroy_job_object, find_job, job_for_handle, update_job,
  completion_record, completion_find,
}
use otos_coreinit.Cluster.Pick.{pick_next_for_node}
use otos_coreinit.Cluster.Handlers.{Reply, release_job_resource}

-- `job_result_t`
abbrev pub job_running : ℕ
job_running = 0

abbrev pub job_finished : ℕ
job_finished = 1

abbrev pub job_blocked_on_mutex : ℕ
job_blocked_on_mutex = 2

abbrev pub job_blocked_on_job : ℕ
job_blocked_on_job = 3

-- What a report other than JOB_FINISHED does to the job's data.
unfoldable pub returned : ℕ → ℕ → Job → Job
returned result block_id j =
    if result == job_blocked_on_mutex
    then record j { dispatched = false; blocked = 1; block_kind = block_mutex; block_id = block_id }
    else if result == job_blocked_on_job
    then record j { dispatched = false; blocked = 1; block_kind = block_job; block_id = block_id }
    else record j { dispatched = false }

-- `(int)words[0]` outside 0 .. MAX_MUTEXES - 1 has no object.
unfoldable pub mutex_object_for_id : List ℕ → ℕ → ℕ
mutex_object_for_id handles mutex_id =
    if leb (2 ^ 31) mutex_id || leb max_mutexes mutex_id then 0 else get_or handles mutex_id 0

abbrev pub job_info : List JobSlot → ℕ → Option Job
job_info ss handle = elim (job_for_handle ss handle) [
  | none ↦ none
  | some i ↦ elim (get_elem? ss i) [ none ↦ none | some s ↦ some s.info ]
]

-- Changes the data of the job with this handle, if there is one.
unfoldable pub change_job : List JobSlot → ℕ → (Job → Job) → List JobSlot
change_job ss handle f = elim (job_for_handle ss handle) [ none ↦ ss | some i ↦ update_job ss i f ]

-- Priority inheritance: the holder runs at least at the priority of who waits for it.
unfoldable pub inherit : List JobSlot → ℕ → ℕ → List JobSlot
inherit ss requesting_job_id holder_job_id = elim (job_info ss requesting_job_id) [
  | none ↦ ss
  | some self ↦ change_job ss holder_job_id (λ holder.
      if lt_int holder.effective_priority self.effective_priority
      then record holder { effective_priority = self.effective_priority }
      else holder)
]

module _ (k : Kernel) where
  unfoldable pub handle_submit_job : Cluster k → List ℕ → ℕ → Reply × Cluster k
  handle_submit_job c words cap =
      let j =
        new_job (to_int (word words 1)) (word words 2) (word words 3) (to_int (word words 4))
          (word words 0) (word words 5) (word words 6) (word words 7) in
      let (handle, c') = create_job_object k c j in (respond cap (handle ∷ []), c')

  -- The five words of the reply are read from the slot after the pick.
  unfoldable pub handle_get_next_job : Cluster k → List ℕ → ℕ → Reply × Cluster k
  handle_get_next_job c words cap =
      let ((handle, slot), c') = pick_next_for_node k c (word words 0) in
      if not (handle == 0)
      then (elim (get_elem? c'.jobs slot) [
        | none ↦ (none, c')
        | some s ↦ (respond cap (1 ∷ handle ∷ s.info.type ∷ s.info.arg0 ∷ s.info.arg1 ∷ []), c')
      ])
      else (respond cap (0 ∷ 0 ∷ 0 ∷ 0 ∷ 0 ∷ []), c')

  unfoldable pub finish_job : Cluster k → ℕ → ℕ → Cluster k
  finish_job c job completion_value = elim (job_info c.jobs job) [
    | none ↦ c
    | some j ↦
        destroy_job_object k
          (completion_record (release_job_resource k c job j.bound_resource_id) job
            completion_value)
          job
  ]

  unfoldable pub handle_report_job_result : Cluster k → List ℕ → Reply × Cluster k
  handle_report_job_result c words =
      let job = word words 0 in
      let result = to_int (word words 1) in
      if result == job_finished
      then (none, finish_job c job (word words 3))
      else (none, record c { jobs = change_job c.jobs job (returned result (word words 2)) })

  unfoldable pub handle_get_job_result : Cluster k → List ℕ → ℕ → Reply × Cluster k
  handle_get_job_result c words cap = elim (completion_find c.completions (word words 0)) [
    | none ↦ (respond cap (0 ∷ 0 ∷ []), c)
    | some value ↦ (respond cap (1 ∷ value ∷ []), c)
  ]

  unfoldable pub handle_mutex_try_lock : Cluster k → List ℕ → ℕ → Reply × Cluster k
  handle_mutex_try_lock c words cap =
      let requesting_job_id = word words 1 in
      let m = mutex_object_for_id c.mutex_handles (to_int (word words 0)) in
      if not (m == 0)
      then (let (reply, c') = invoke k c m mutex_try_lock_id (requesting_job_id ∷ []) 40 in
          elim (at_least 32 reply) [
            | none ↦ (respond cap (0 ∷ []), c')
            | some out ↦
                if word out 0 == 0
                then (
                  respond cap (0 ∷ []),
                  record c' { jobs = inherit c'.jobs requesting_job_id (word out 1) },
                )
                else (respond cap (word out 0 ∷ []), c')
          ])
      else (respond cap (0 ∷ []), c)

  unfoldable pub handle_mutex_unlock : Cluster k → List ℕ → Reply × Cluster k
  handle_mutex_unlock c words =
      let requesting_job_id = word words 1 in
      let m = mutex_object_for_id c.mutex_handles (to_int (word words 0)) in
      if m == 0
      then (none, c)
      else (let (reply, c') = invoke k c m mutex_unlock_id (requesting_job_id ∷ []) 24 in
          if says_ok 24 reply
          then (
            none,
            record c' {
              jobs =
                  change_job c'.jobs requesting_job_id
                    (λ j. record j { effective_priority = j.base_priority });
            },
          )
          else (none, c'))
