-- ===== src/Cluster/Pick.antt =====
-- Which job a node gets next: coreinit/cluster_scheduler.c, resource_ok_for to pick_next_for_node.
pub mod Looks
pub mod Scanned
pub mod Chosen
pub mod Order
use otos_coreinit.Base.{
  ℕ, ◌+◌, Bool, true, false, List, [], ◌∷◌, Option, none, some, ◌==◌, ◌&&◌, ◌||◌, not,
  if◌then◌else◌, leb, lt_int, get_elem?,
}
use otos_coreinit.Kernel.{Kernel}
use otos_coreinit.Cluster.Objects.{
  Job, node_affinity_any, resource_kind_none, block_none, block_mutex, block_job,
}
use otos_coreinit.Cluster.State.{Cluster, JobSlot, ResourceEntry}
use otos_coreinit.Cluster.Resources.{ResourceInfo, resource_get_info, resource_reserve}
use otos_coreinit.Cluster.Jobs.{job_for_handle, update_job}

-- The best candidate of a scan so far, and its effective priority.
pub record Best : Type 0 where
  pub slot : ℕ
  pub handle : ℕ
  pub priority : ℕ

pub record Scan : Type 0 where
  pub best_ready : Option Best
  pub best_blocked_mutex : Option Best

abbrev pub no_scan : Scan
no_scan = record { best_ready = none; best_blocked_mutex = none }

-- The first candidate, or one of strictly higher priority.
abbrev pub improves : ℕ → Option Best → Bool
improves priority none = true
improves priority (some b) = lt_int b.priority priority

abbrev pub candidate : ℕ → JobSlot → Best
candidate i s = record { slot = i; handle = s.handle; priority = s.info.effective_priority }

unfoldable pub offer : ℕ → JobSlot → Scan → Scan
offer i s sc =
    if s.info.blocked == 0
    then (if improves s.info.effective_priority sc.best_ready
        then record sc { best_ready = some (candidate i s) }
        else sc)
    else if s.info.block_kind == block_mutex
    then (if improves s.info.effective_priority sc.best_blocked_mutex
        then record sc { best_blocked_mutex = some (candidate i s) }
        else sc)
    else sc

-- A job that waits for a job which is gone waits no longer.
unfoldable pub unblock : List JobSlot → JobSlot → JobSlot
unblock all s =
    let freed : JobSlot = record s {
      info = record (s.info) { blocked = 0; block_kind = block_none };
    } in
    if not (s.info.blocked == 0) && s.info.block_kind == block_job
    then (elim (job_for_handle all s.info.block_id) [ none ↦ freed | some i ↦ s ])
    else s

abbrev pub eligible : ℕ → Job → Bool
eligible requesting_node_id j =
    j.assigned_node == requesting_node_id
    || (j.assigned_node == node_affinity_any
        && (j.node_affinity == requesting_node_id || j.node_affinity == node_affinity_any))

unfoldable pub best : Scan → Option Best
best sc = elim sc.best_ready [ none ↦ sc.best_blocked_mutex | some b ↦ some b ]

module _ (k : Kernel) where
  -- GET_INFO, and a test of what it tells; no test is passed without an answer.
  unfoldable pub info_passes : (ResourceInfo → Bool) → Cluster k → ℕ → Bool × Cluster k
  info_passes test c handle =
      let (info, c') = resource_get_info k c handle in
      (elim info [ none ↦ false | some r ↦ test r ], c')

  -- An index entry of the kind, free and large enough.
  pub serves : Cluster k → ℕ → ℕ → ResourceEntry → Bool × Cluster k
  serves c kind min_capacity e =
      if e.used && e.kind == kind
      then info_passes (λ r. r.reserved_by == 0 && leb min_capacity r.capacity) c e.handle
      else (false, c)

  pub any_serves : Cluster k → ℕ → ℕ → List ResourceEntry → Bool × Cluster k
  any_serves c kind min_capacity [] = (false, c)
  any_serves c kind min_capacity (e ∷ es) =
      let (found, c') = serves c kind min_capacity e in
      let rest = any_serves c' kind min_capacity es in if found then (true, c') else rest

  unfoldable pub resource_ok_for : Cluster k → ℕ → Job → Bool × Cluster k
  resource_ok_for c job_handle j =
      if not (j.bound_resource_id == 0)
      then info_passes (λ r. r.reserved_by == 0 || r.reserved_by == job_handle) c
          j.bound_resource_id
      else if j.resource_id == 0 && j.resource_kind == resource_kind_none
      then (true, c)
      else if not (j.resource_id == 0)
      then info_passes (λ r. r.reserved_by == 0) c j.resource_id
      else any_serves c j.resource_kind j.resource_min_capacity c.resource_index

  -- The last entry that serves, the most recently declared; `chosen` without one.
  pub last_serving : Cluster k → ℕ → ℕ → List ResourceEntry → ℕ → ℕ × Cluster k
  last_serving c kind min_capacity [] chosen = (chosen, c)
  last_serving c kind min_capacity (e ∷ es) chosen =
      let (found, c') = serves c kind min_capacity e in
      last_serving c' kind min_capacity es (if found then e.handle else chosen)

  unfoldable pub choose_resource : Cluster k → Job → ℕ × Cluster k
  choose_resource c j =
      if not (j.resource_id == 0)
      then (j.resource_id, c)
      else if not (j.resource_kind == resource_kind_none)
      then last_serving c j.resource_kind j.resource_min_capacity c.resource_index 0
      else (0, c)

  unfoldable pub bind_resource_for : Cluster k → ℕ → ℕ → Job → Cluster k
  bind_resource_for c i job_handle j =
      if not (j.bound_resource_id == 0)
      then c
      else (let (chosen, c1) = choose_resource c j in
          let (reserved, c2) = resource_reserve k c1 chosen job_handle in
          if chosen == 0
          then c1
          else if reserved
          then record c2 {
            jobs = update_job c2.jobs i (λ b. record b { bound_resource_id = chosen });
          }
          else c2)

  -- A job that the scan looks at: not claimed by a node, open to this one, its resource to be had.
  unfoldable pub considered : Cluster k → ℕ → JobSlot → Bool × Cluster k
  considered c requesting_node_id s =
      if (s.used && not s.info.dispatched) && eligible requesting_node_id s.info
      then resource_ok_for c s.handle s.info
      else (false, c)

  -- The loop over the slots. The slots that it writes are returned, and put back by the caller: what
  -- it reads of the others is whether a job is there, which it does not change.
  unfoldable pub scan_jobs :
      Cluster k → ℕ → List JobSlot → ℕ → Scan → (List JobSlot × Scan) × Cluster k
  scan_jobs c requesting_node_id [] i sc = (([], sc), c)
  scan_jobs c requesting_node_id (s ∷ ss) i sc =
      let (here, c') = considered c requesting_node_id s in
      let s' = if here then unblock c.jobs s else s in
      let ((ss', sc'), c'') =
        scan_jobs c' requesting_node_id ss (i + 1) (if here then offer i s' sc else sc) in
      ((s' ∷ ss', sc'), c'')

  -- The claim of the chosen job: the exchange on `dispatched`, then node and resource. It is lost
  -- if another node's exchange came first; 0 then stands for "none this round".
  unfoldable pub claim_job : Cluster k → ℕ → Best → ℕ × Cluster k
  claim_job c requesting_node_id b = elim (get_elem? c.jobs b.slot) [
    | none ↦ (0, c)
    | some s ↦
        if s.info.dispatched
        then (0, c)
        else (let taken : Job = record (s.info) {
          dispatched = true;
          assigned_node =
              if s.info.assigned_node == node_affinity_any
              then requesting_node_id
              else s.info.assigned_node;
        } in
            let claimed : Cluster k = record c { jobs = update_job c.jobs b.slot (λ _. taken) } in
            (b.handle, bind_resource_for claimed b.slot b.handle taken))
  ]

  -- The chosen job's handle (0 for none), its slot, and the cluster after the call.
  unfoldable pub pick_next_for_node : Cluster k → ℕ → (ℕ × ℕ) × Cluster k
  pick_next_for_node c requesting_node_id =
      let ((scanned, sc), c1) = scan_jobs c requesting_node_id c.jobs 0 no_scan in
      let c' : Cluster k = record c1 { jobs = scanned } in
      elim (best sc) [
        | none ↦ ((0, 0), c')
        | some b ↦ let (handle, c'') = claim_job c' requesting_node_id b in ((handle, b.slot), c'')
      ]
