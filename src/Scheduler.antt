-- ===== src/Scheduler.antt =====
-- coreinit/scheduler.c: a node's side of the cluster scheduler. Each function sends one request and
-- reads the reply.
pub mod Memory
pub mod Worker
pub mod Results
pub mod Submit
mod Examples
use otos_coreinit.Base.{
  ℕ, ◌+◌, ◌%◌, ◌/◌, ◌*◌, ◌^◌, Bool, true, false, List, [], ◌∷◌, Option, none, some, ◌==◌, ◌&&◌, not,
  if◌then◌else◌, sign_extend,
}
use otos_coreinit.Wire.{word}
use otos_coreinit.Cluster.State.{at_least}
use otos_coreinit.Cluster.Resources.{ResourceInfo}

-- How to reach the scheduler: the function's address (0 for none), the target, and this node.
pub record Binding : Type 0 where
  pub invoke_fn : ℕ
  pub scheduler : ℕ
  pub node_id : ℕ

-- The core's own binding, if the core has a state, and the global one.
pub record Client : Type 0 where
  pub core : Option Binding
  pub global : Binding

pub scheduler_client_init : Client → ℕ → ℕ → ℕ → Client
scheduler_client_init c invoke_fn scheduler node_id =
    let b : Binding = record { invoke_fn = invoke_fn; scheduler = scheduler; node_id = node_id } in
    elim c.core [ none ↦ record c { global = b } | some old ↦ record c { core = some b } ]

pub scheduler_client : Client → Binding
scheduler_client c = elim c.core [
  | none ↦ c.global
  | some b ↦ if not (b.invoke_fn == 0) then b else c.global
]

abbrev pub scheduler_node_id : Client → ℕ
scheduler_node_id c = (scheduler_client c).node_id

-- `(my_node_id & 0xff00000000000000) | (local_core_id & 0x00ffffffffffffff)`
abbrev pub scheduler_node_for_local_core : Client → ℕ → ℕ
scheduler_node_for_local_core c local_core_id =
    (scheduler_node_id c / 2 ^ 56) * 2 ^ 56 + local_core_id % 2 ^ 56

-- The invoke functions, by address, over the state of the machine they reach: target, method, words
-- of the request and room for the reply. `none` is a refused call or an empty reply.
abbrev pub Invoke : Type 0 → Type 0
Invoke S = ℕ → ℕ → ℕ → List ℕ → ℕ → S → Option (List ℕ) × S

module _ (S : Type 0) (invoke : Invoke S) (c : Client) where
  pub scheduler_call : ℕ → List ℕ → ℕ → S → Option (List ℕ) × S
  scheduler_call method_id words cap s =
      invoke (scheduler_client c).invoke_fn (scheduler_client c).scheduler method_id words cap s

  -- A call whose answer is the first word of a reply of at least 24 bytes, 0 without one.
  abbrev first_word : ℕ → List ℕ → S → ℕ × S
  first_word method_id words s =
      let (reply, s') = scheduler_call method_id words 24 s in
      (elim (at_least 24 reply) [ none ↦ 0 | some out ↦ word out 0 ], s')

  abbrev says_yes : ℕ → List ℕ → S → Bool × S
  says_yes method_id words s = let (w, s') = first_word method_id words s in (not (w == 0), s')

  abbrev pub submit : ℕ → ℕ → ℕ → ℕ → ℕ → ℕ → ℕ → ℕ → S → ℕ × S
  submit node_affinity type arg0 arg1 priority resource_id resource_kind resource_min_capacity s =
      first_word 5
        (node_affinity
          ∷ type
          ∷ arg0
          ∷ arg1
          ∷ sign_extend priority
          ∷ resource_id
          ∷ resource_kind
          ∷ resource_min_capacity
          ∷ [])
        s

  abbrev pub scheduler_submit : ℕ → ℕ → ℕ → ℕ → ℕ → ℕ → S → ℕ × S
  scheduler_submit type ctx priority resource_id resource_kind resource_min_capacity s =
      submit (scheduler_node_id c) type ctx 0 priority resource_id resource_kind
        resource_min_capacity s

  abbrev pub scheduler_submit_to_node : ℕ → ℕ → ℕ → ℕ → ℕ → ℕ → ℕ → S → ℕ × S
  scheduler_submit_to_node node type ctx priority resource_id resource_kind resource_min_capacity
        s =
      submit node type ctx 0 priority resource_id resource_kind resource_min_capacity s

  abbrev pub scheduler_submit_values_to_node : ℕ → ℕ → ℕ → ℕ → ℕ → ℕ → ℕ → ℕ → S → ℕ × S
  scheduler_submit_values_to_node node type arg0 arg1 priority resource_id resource_kind
        resource_min_capacity s =
      submit node type arg0 arg1 priority resource_id resource_kind resource_min_capacity s

  -- The value of a finished job.
  abbrev pub scheduler_get_job_result : ℕ → S → Option ℕ × S
  scheduler_get_job_result job_id s =
      let (reply, s') = scheduler_call 14 (job_id ∷ []) 32 s in
      (
        elim (at_least 32 reply) [
          | none ↦ none
          | some out ↦ if word out 0 == 0 then none else some (word out 1)
        ],
        s',
      )

  abbrev pub scheduler_declare_resource : ℕ → ℕ → ℕ → ℕ → S → ℕ × S
  scheduler_declare_resource kind descriptor capacity sync_kind s =
      first_word 3 (scheduler_node_id c ∷ kind ∷ descriptor ∷ capacity ∷ sync_kind ∷ []) s

  abbrev pub scheduler_reassign_resource : ℕ → ℕ → S → Bool × S
  scheduler_reassign_resource resource_id new_owner_node s =
      says_yes 4 (resource_id ∷ new_owner_node ∷ []) s

  -- The answer and `*out_resource_id`.
  abbrev pub scheduler_request_allocation : ℕ → ℕ → ℕ → ℕ → S → (Bool × ℕ) × S
  scheduler_request_allocation base size kind sync_kind s =
      let (reply, s') =
        scheduler_call 2 (scheduler_node_id c ∷ base ∷ size ∷ kind ∷ sync_kind ∷ []) 40 s in
      (
        elim (at_least 32 reply) [
          | none ↦ (false, 0)
          | some out ↦ (not (word out 0 == 0), word out 1)
        ],
        s',
      )

  -- The answer and the five out parameters (this call does not tell who reserved the resource).
  abbrev pub scheduler_get_resource_info : ℕ → S → (Bool × ResourceInfo) × S
  scheduler_get_resource_info resource_id s =
      let (reply, s') = scheduler_call 10 (resource_id ∷ []) 64 s in
      let read : List ℕ → ResourceInfo = λ out. record {
        owner_node = word out 1;
        kind = word out 2;
        descriptor = word out 3;
        capacity = word out 4;
        sync_kind = word out 5;
        reserved_by = 0;
      } in
      (
        elim (at_least 56 reply) [
          | none ↦ (false, read [])
          | some out ↦ (not (word out 0 == 0), read out)
        ],
        s',
      )

  -- The answer, `*out_resource_id` and `*out_base`.
  pub scheduler_allocate_slice : ℕ → ℕ → ℕ → ℕ → S → (Bool × ℕ × ℕ) × S
  scheduler_allocate_slice size kind sync_kind self_job_id s =
      let (reply, s') =
        scheduler_call 11 (scheduler_node_id c ∷ self_job_id ∷ size ∷ kind ∷ sync_kind ∷ []) 48 s in
      (
        elim (at_least 32 reply) [
          | none ↦ (false, 0, 0)
          | some out ↦ (not (word out 0 == 0), word out 1, word out 2)
        ],
        s',
      )

  abbrev pub scheduler_release_slice : ℕ → ℕ → S → Bool × S
  scheduler_release_slice resource_id self_job_id s = says_yes 12 (resource_id ∷ self_job_id ∷ []) s

  -- `(uint64_t)mutex_id` of an int.
  pub scheduler_mutex_try_lock : ℕ → ℕ → S → Bool × S
  scheduler_mutex_try_lock mutex_id self_job_id s =
      says_yes 8 (sign_extend mutex_id ∷ self_job_id ∷ []) s

  pub scheduler_mutex_unlock : ℕ → ℕ → S → S
  scheduler_mutex_unlock mutex_id self_job_id s =
      (scheduler_call 9 (sign_extend mutex_id ∷ self_job_id ∷ []) 0 s).1
