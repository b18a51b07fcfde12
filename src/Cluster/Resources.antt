-- ===== src/Cluster/Resources.antt =====
-- Resource objects of coreinit/cluster_scheduler.c: creation, and the calls on a handle.
use otos_coreinit.Base.{
  ℕ, Bool, true, false, List, [], ◌∷◌, Option, none, some, ◌==◌, ◌&&◌, not, if◌then◌else◌, leb,
  add64, set,
}
use otos_coreinit.Kernel.{Kernel, resource}
use otos_coreinit.Wire.{word}
use otos_coreinit.Cluster.Objects.{
  resource_get_info_id, reserve_id, release_reservation_id, reassign_id, resource_kind_mmu,
}
use otos_coreinit.Cluster.State.{
  Cluster, ResourceEntry, resource_pool_size, fill_first, invoke, at_least,
}

abbrev entry_used : ResourceEntry → Bool
entry_used e = e.used

-- What GET_INFO tells.
pub record ResourceInfo : Type 0 where
  pub owner_node : ℕ
  pub kind : ℕ
  pub descriptor : ℕ
  pub capacity : ℕ
  pub sync_kind : ℕ
  pub reserved_by : ℕ

-- The first word of a reply of at least `n` bytes, as a truth value.
abbrev pub says_ok : ℕ → Option (List ℕ) → Bool
says_ok n reply = elim (at_least n reply) [ none ↦ false | some ws ↦ not (word ws 0 == 0) ]

abbrev read_info : List ℕ → ResourceInfo
read_info out = record {
  owner_node = word out 0;
  kind = word out 1;
  descriptor = word out 2;
  capacity = word out 3;
  sync_kind = word out 4;
  reserved_by = word out 5;
}

module _ (k : Kernel) where
  -- The slot, then the handle: both can be refused, the slot number is spent either way.
  unfoldable pub create_resource_object : Cluster k → ℕ → ℕ → ℕ → ℕ → ℕ → ℕ → ℕ × Cluster k
  create_resource_object c owner kind descriptor capacity sync_kind initial_reserved_by =
      let slot = c.resource_storage_next in
      let counted : Cluster k = record c { resource_storage_next = add64 slot 1 } in
      if leb resource_pool_size slot
      then (0, counted)
      else (let (handle, kernel') = k.create c.kernel (resource slot) in
          let stored : Cluster k = record counted {
            kernel = kernel';
            resource_storage = set c.resource_storage slot (record {
              owner_node = owner;
              kind = kind;
              descriptor = descriptor;
              capacity = capacity;
              reserved_by = initial_reserved_by;
              sync_kind = sync_kind;
            });
          } in
          if handle == 0 then (0, stored) else (
            handle,
            record stored {
              resource_index =
                  fill_first entry_used (record { handle = handle; kind = kind; used = true })
                    c.resource_index;
            },
          ))

  unfoldable pub resource_get_info : Cluster k → ℕ → Option ResourceInfo × Cluster k
  resource_get_info c handle =
      if handle == 0
      then (none, c)
      else (let (reply, c') = invoke k c handle resource_get_info_id (0 ∷ []) 64 in
          (elim (at_least 56 reply) [ none ↦ none | some out ↦ some (read_info out) ], c'))

  -- The three calls that change a resource share their shape.
  unfoldable pub resource_call : Cluster k → ℕ → ℕ → ℕ → Bool × Cluster k
  resource_call c handle method_id w =
      if handle == 0
      then (false, c)
      else (let (reply, c') = invoke k c handle method_id (w ∷ []) 24 in (says_ok 24 reply, c'))

  unfoldable pub resource_reserve : Cluster k → ℕ → ℕ → Bool × Cluster k
  unfolding resource_call
  resource_reserve c handle requesting_job = resource_call c handle reserve_id requesting_job

  unfoldable pub resource_release_reservation : Cluster k → ℕ → ℕ → Bool × Cluster k
  unfolding resource_call
  resource_release_reservation c handle requesting_job =
      resource_call c handle release_reservation_id requesting_job

  unfoldable pub resource_reassign : Cluster k → ℕ → ℕ → Bool × Cluster k
  unfolding resource_call
  resource_reassign c handle new_owner_node = resource_call c handle reassign_id new_owner_node

  unfoldable pub owned_by : Cluster k → ℕ → ℕ → Bool × Cluster k
  owned_by c node_id handle =
      let (info, c') = resource_get_info c handle in
      (elim info [ none ↦ false | some r ↦ r.owner_node == node_id ], c')

  unfoldable pub has_mmu_in : Cluster k → ℕ → List ResourceEntry → Bool × Cluster k
  has_mmu_in c node_id [] = (false, c)
  has_mmu_in c node_id (e ∷ es) =
      let is_mmu = e.used && e.kind == resource_kind_mmu in
      let (owned, c') = owned_by c node_id e.handle in
      let rest = has_mmu_in (if is_mmu then c' else c) node_id es in
      if is_mmu && owned then (true, c') else rest

  unfoldable pub node_has_mmu : Cluster k → ℕ → Bool × Cluster k
  unfolding has_mmu_in
  node_has_mmu c node_id = has_mmu_in c node_id c.resource_index
