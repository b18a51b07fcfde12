-- ===== src/Cluster/Nodes.antt =====
-- Node objects of coreinit/cluster_scheduler.c: creation, lookup by id, removal.
pub mod Membership
use otos_coreinit.Base.{
  ℕ, Bool, true, false, List, [], ◌∷◌, Option, none, some, ◌==◌, ◌&&◌, if◌then◌else◌, leb, add64,
  set,
}
use otos_coreinit.Kernel.{Kernel, node}
use otos_coreinit.Cluster.State.{Cluster, NodeEntry, max_nodes, fill_first, destroy}

abbrev entry_used : NodeEntry → Bool
entry_used e = e.used

unfoldable pub find_node : ℕ → List NodeEntry → Option NodeEntry
find_node node_id [] = none
find_node node_id (e ∷ es) = if e.used && e.node_id == node_id then some e else find_node node_id es

-- The first member with this id is marked unused.
pub remove_node : ℕ → List NodeEntry → List NodeEntry
remove_node node_id [] = []
remove_node node_id (e ∷ es) =
    if e.used && e.node_id == node_id
    then record e { used = false } ∷ es
    else e ∷ remove_node node_id es

module _ (k : Kernel) where
  unfoldable pub create_node_object : Cluster k → ℕ → ℕ → ℕ → ℕ × Cluster k
  create_node_object c node_id arch signal_target =
      let slot = c.node_storage_next in
      let counted : Cluster k = record c { node_storage_next = add64 slot 1 } in
      if leb max_nodes slot
      then (0, counted)
      else (let (handle, kernel') = k.create c.kernel (node slot) in
          let stored : Cluster k = record counted {
            kernel = kernel';
            node_storage =
                set c.node_storage slot
                  (record { node_id = node_id; arch = arch; signal_target = signal_target });
          } in
          if handle == 0 then (0, stored) else (
            handle,
            record stored {
              node_index =
                  fill_first entry_used (record { handle = handle; node_id = node_id; used = true })
                    c.node_index;
            },
          ))

  -- The handle of the current member, 0 for none.
  pub node_find_by_id : Cluster k → ℕ → ℕ
  node_find_by_id c node_id = elim (find_node node_id c.node_index) [ none ↦ 0 | some e ↦ e.handle ]

  unfoldable pub node_destroy : Cluster k → ℕ → Cluster k
  node_destroy c node_id = elim (find_node node_id c.node_index) [
    | none ↦ c
    | some e ↦ record (destroy k c e.handle) { node_index = remove_node node_id c.node_index }
  ]
