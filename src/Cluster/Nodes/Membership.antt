-- ===== src/Cluster/Nodes/Membership.antt =====
-- Joining and leaving: the node index of coreinit/cluster_scheduler.c.
use otos_coreinit.Base.{
  ℕ, ◌≡◌, ◌≢◌, refl, sym, ◌∙◌, ap, inl, inr, true, List, [], ◌∷◌, none, some, arith, ◌==◌, leb,
  Bool-cases,
}
use otos_coreinit.Kernel.{Kernel, node}
use otos_coreinit.Wire.{word, respond}
use otos_coreinit.Cluster.State.{Cluster, NodeEntry, fill_first, max_nodes, destroy}
use otos_coreinit.Cluster.Nodes.{
  find_node, remove_node, create_node_object, node_find_by_id, node_destroy, entry_used,
}
use otos_coreinit.Cluster.Handlers.{handle_join_node}

-- Some place of the index is free.
abbrev pub HasRoom : List NodeEntry → Type 0
HasRoom [] = ⊥
HasRoom (e ∷ es) = (e.used ≡ true → HasRoom es)

find_node-fill_first :
    (es : List NodeEntry) (id h : ℕ)
    → find_node id es ≡ none
    → HasRoom es
    → find_node id (fill_first entry_used (record { handle = h; node_id = id; used = true }) es)
      ≡ some (record { handle = h; node_id = id; used = true })
unfolding find_node fill_first
find_node-fill_first [] id h fresh room = absurd room
find_node-fill_first (e ∷ es) id h fresh room = elim (Bool-cases e.used) [
  | inr free ↦ ground arith
  | inl taken ↦ ground (arith, find_node-fill_first es id h (ground arith) (room taken))
]

remove_node-fill_first :
    (es : List NodeEntry) (id h : ℕ)
    → find_node id es ≡ none
    → find_node id (
        remove_node id
          (fill_first entry_used (record { handle = h; node_id = id; used = true }) es))
      ≡ none
unfolding find_node fill_first remove_node
remove_node-fill_first [] id h fresh = refl
remove_node-fill_first (e ∷ es) id h fresh = elim (Bool-cases e.used) [
  | inr free ↦ ground arith
  | inl taken ↦ ground (arith, remove_node-fill_first es id h (ground arith))
]

module _ (k : Kernel) where
  create_node_object-index :
      (c : Cluster k) (id arch target : ℕ)
      → (create_node_object k c id arch target).0 ≢ 0
      → (create_node_object k c id arch target).1.node_index
        ≡ fill_first entry_used
            (record {
              handle = (create_node_object k c id arch target).0;
              node_id = id;
              used = true;
            })
            c.node_index
  unfolding create_node_object
  create_node_object-index c id arch target =
      elim (Bool-cases (leb max_nodes c.node_storage_next)) [
        | inl full ↦ rw full (λ made. absurd (made refl))
        | inr room ↦
            rw room (elim (Bool-cases ((k.create c.kernel (node c.node_storage_next)).0 == 0)) [
              | inl z ↦ rw z (λ made. absurd (made refl))
              | inr z ↦ rw z (λ made. refl)
            ])
      ]

  joined :
      (c : Cluster k) (words : List ℕ) (cap : ℕ)
      → find_node (word words 0) c.node_index ≡ none
      → (handle_join_node k c words cap).1
        ≡ (create_node_object k c (word words 0) (word words 1) (word words 2)).1
  unfolding handle_join_node node_find_by_id
  joined c words cap fresh = ground (arith, fresh)

  refused :
      (c : Cluster k) (words : List ℕ) (cap : ℕ)
      → node_find_by_id k c (word words 0) ≢ 0
      → handle_join_node k c words cap ≡ (respond cap (0 ∷ []), c)
  unfolding handle_join_node
  refused c words cap member = ground (arith, member)

  found :
      (c : Cluster k) (id : ℕ) (e : NodeEntry)
      → find_node id c.node_index ≡ some e
      → node_find_by_id k c id ≡ e.handle
  unfolding node_find_by_id
  found c id e at = ground (arith, at)

  gone :
      (c : Cluster k) (id : ℕ) (e : NodeEntry)
      → find_node id c.node_index ≡ some e
      → find_node id (remove_node id c.node_index) ≡ none
      → node_find_by_id k (node_destroy k c id) id ≡ 0
  unfolding node_find_by_id node_destroy destroy
  gone c id e at left = rw (at, node_destroy) (rw (left, node_find_by_id) refl)

  -- A node that was no member and joins with success is the member that its id names; a second join
  -- under that id is refused with handle 0 and changes nothing; and once its object is destroyed
  -- the id names no member again.
  pub join_node-Member :
      (c : Cluster k) (words : List ℕ) (cap : ℕ)
      → find_node (word words 0) c.node_index ≡ none
      → HasRoom c.node_index
      → (create_node_object k c (word words 0) (word words 1) (word words 2)).0 ≢ 0
      → (node_find_by_id k (handle_join_node k c words cap).1 (word words 0)
          ≡ (create_node_object k c (word words 0) (word words 1) (word words 2)).0)
        × (handle_join_node k (handle_join_node k c words cap).1 words cap
            ≡ (respond cap (0 ∷ []), (handle_join_node k c words cap).1))
        × (node_find_by_id k
              (node_destroy k (handle_join_node k c words cap).1 (word words 0))
              (word words 0)
            ≡ 0)
  join_node-Member c words cap fresh room made =
      let id = word words 0 in
      let d = (create_node_object k c id (word words 1) (word words 2)).1 in
      let index = create_node_object-index c id (word words 1) (word words 2) made in
      let h = (create_node_object k c id (word words 1) (word words 2)).0 in
      let here = ap (find_node id) index ∙ find_node-fill_first c.node_index id h fresh room in
      let member = found d id _ here in
      let left =
        ap (λ (es : List NodeEntry). find_node id (remove_node id es)) index
        ∙ remove_node-fill_first c.node_index id h fresh in
      rw (joined c words cap fresh)
        (member, refused d words cap (λ z. made (sym member ∙ z)), gone d id _ here left)
