-- ===== src/Cluster/Keeps/Methods.antt =====
-- Each method of coreinit/cluster_scheduler.c keeps what is closed under its changes to a job.
use otos_coreinit.Base.{
  ℕ, ◌≡◌, ◌≢◌, inl, inr, List, [], ◌∷◌, some, arith, ◌==◌, not, ◌||◌, length, Bool-cases,
  Option-cases,
}
use otos_coreinit.Kernel.{Kernel}
use otos_coreinit.Wire.{word}
use otos_coreinit.Cluster.Objects.{Job}
use otos_coreinit.Cluster.State.{Cluster, invoke, at_least, job_pool_size}
use otos_coreinit.Cluster.Resources.{
  ResourceInfo, resource_get_info, resource_reassign, node_has_mmu, says_ok,
}
use otos_coreinit.Cluster.Nodes.{node_find_by_id, node_destroy}
use otos_coreinit.Cluster.Quiet.{
  invoke-Quiet, resource_get_info-Quiet, resource_call-Quiet, node_has_mmu-Quiet,
}
use otos_coreinit.Cluster.Handlers.{
  handle_join_node, handle_leave_node, handle_preempt_node, handle_request_allocation,
  handle_allocate_slice, handle_release_slice, handle_declare_resource, handle_get_resource_info,
  handle_reassign_resource,
}
use otos_coreinit.Cluster.Keeps.{Guard, Has, Closed}
use otos_coreinit.Cluster.Keeps.Calls.{
  Quiet-Has, destroy-Has, create_resource_object-Has, create_node_object-Has, node_destroy-Has,
  sweep_resources-Has,
}
use otos_coreinit.Cluster.Keeps.Picks.{leave_jobs-Has}

module _ {k : Kernel} (laws : Guard k) (Q : ℕ → Job → Type 0) (h : ℕ) (c : Cluster k) where
  module _ (v : Has laws Q h c) (words : List ℕ) (cap : ℕ) where
    invoke-Has :
        (handle method_id : ℕ) (ws : List ℕ) (room : ℕ)
        → length ws ≢ 6
        → length ws ≢ 0
        → Has laws Q h (invoke k c handle method_id ws room).1
    invoke-Has handle method_id ws room six zero =
        Quiet-Has laws Q h (invoke-Quiet k c handle method_id ws room six zero) v

    info-Has : (r : ℕ) → Has laws Q h (resource_get_info k c r).1
    info-Has r = Quiet-Has laws Q h (resource_get_info-Quiet k c r) v

    pub join_node-Has : Has laws Q h (handle_join_node k c words cap).1
    unfolding handle_join_node
    join_node-Has = elim (Bool-cases (not (node_find_by_id k c (word words 0) == 0))) [
      | inl e ↦ rw e v
      | inr e ↦
          rw e (create_node_object-Has laws Q h c (word words 0) (word words 1) (word words 2) v)
    ]

    pub leave_node-Has : Closed Q → Has laws Q h (handle_leave_node k c words).1
    unfolding handle_leave_node
    leave_node-Has cl = elim (Bool-cases (node_find_by_id k c (word words 0) == 0)) [
      | inl e ↦ rw e v
      | inr e ↦
          let swept =
            sweep_resources-Has laws Q h _ (word words 0)
              (node_destroy k c (word words 0)).resource_index
              (node_destroy-Has laws Q h c (word words 0) v) in
          rw e (
            leave_jobs-Has laws Q h cl job_pool_size 0 _ (word words 0)
              (record { issued = swept.issued; on = swept.on }))
    ]

    pub preempt_node-Has : Has laws Q h (handle_preempt_node k c words cap).1
    unfolding handle_preempt_node
    preempt_node-Has = elim (Bool-cases (not (node_find_by_id k c (word words 0) == 0))) [
      | inl e ↦
          rw e (
            invoke-Has (node_find_by_id k c (word words 0)) 1 (0 ∷ []) 0 (omega arith)
              (omega arith))
      | inr e ↦ rw e v
    ]

    pub request_allocation-Has : Has laws Q h (handle_request_allocation k c words cap).1
    unfolding handle_request_allocation
    request_allocation-Has =
        let v1 =
          invoke-Has c.memory_manager 0 (word words 1 ∷ word words 2 ∷ word words 3 ∷ []) 24
            (omega arith) (omega arith) in
        elim (Bool-cases (
          says_ok 24
            (invoke k c c.memory_manager 0 (word words 1 ∷ word words 2 ∷ word words 3 ∷ [])
              24).0)) [
                | inl e ↦ rw e (
                    create_resource_object-Has laws Q h _ (word words 0) 0 (word words 1)
                      (word words 2) (word words 4) 0 (record { issued = v1.issued; on = v1.on }))
                | inr e ↦ rw e v1
              ]

    pub allocate_slice-Has : Has laws Q h (handle_allocate_slice k c words cap).1
    unfolding handle_allocate_slice
    allocate_slice-Has =
        let v1 =
          invoke-Has c.memory_manager 1 (word words 2 ∷ word words 3 ∷ []) 40 (omega arith)
            (omega arith) in
        elim (Option-cases
          (at_least 24 (invoke k c c.memory_manager 1 (word words 2 ∷ word words 3 ∷ []) 40).0)) [
            | inl e ↦ rw (e, handle_allocate_slice) v1
            | inr (out, e) ↦
                rw (e, handle_allocate_slice)
                  (elim (Bool-cases (not (word out 0 == 0))) [
                    | inl ok ↦ rw ok (
                        create_resource_object-Has laws Q h _ (word words 0) 0 (word out 1)
                          (word words 2) (word words 4) (word words 1) v1)
                    | inr bad ↦ rw bad v1
                  ])
          ]

    release_with :
        (r : ResourceInfo)
        → (resource_get_info k c (word words 0)).0 ≡ some r
        → Has laws Q h (handle_release_slice k c words cap).1
    unfolding handle_release_slice
    release_with r e =
        let v0 = info-Has (word words 0) in
        let c0 = (resource_get_info k c (word words 0)).1 in
        let v1 =
          Quiet-Has laws Q h
            (invoke-Quiet k c0 c0.memory_manager 2 (r.descriptor ∷ []) 24 (omega arith)
              (omega arith))
            v0 in
        rw (e, handle_release_slice)
          (elim (Bool-cases (not (r.kind == 0))) [
            | inl a ↦ rw a v0
            | inr a ↦ rw a (elim (Bool-cases (not (r.reserved_by == word words 1))) [
              | inl b ↦ rw b v0
              | inr b ↦
                  rw b
                    (elim (Bool-cases
                      (says_ok 24 (invoke k c0 c0.memory_manager 2 (r.descriptor ∷ []) 24).0)) [
                        | inl s ↦
                            let d = destroy-Has laws Q h _ (word words 0) v1 in
                            rw s (record { issued = d.issued; on = d.on })
                        | inr s ↦ rw s v1
                      ])
            ])
          ])

    pub release_slice-Has : Has laws Q h (handle_release_slice k c words cap).1
    unfolding handle_release_slice
    release_slice-Has = elim (Option-cases (resource_get_info k c (word words 0)).0) [
      | inl e ↦ rw (e, handle_release_slice) (info-Has (word words 0))
      | inr (r, e) ↦ release_with r e
    ]

    pub declare_resource-Has : Has laws Q h (handle_declare_resource k c words cap).1
    unfolding handle_declare_resource
    declare_resource-Has =
        let v1 = Quiet-Has laws Q h (node_has_mmu-Quiet k c (word words 0)) v in
        let created = λ (d : Cluster k) (w : Has laws Q h d).
          create_resource_object-Has laws Q h d (word words 0) (word words 1) (word words 2)
            (word words 3) (word words 4) 0 w in
        elim (Bool-cases (word words 4 == 1 || word words 4 == 2)) [
          | inr n ↦ rw n (created c v)
          | inl n ↦ rw n (elim (Bool-cases (not (node_has_mmu k c (word words 0)).0)) [
            | inl m ↦ rw m v1
            | inr m ↦ rw m (created (node_has_mmu k c (word words 0)).1 v1)
          ])
        ]

    pub get_resource_info-Has : Has laws Q h (handle_get_resource_info k c words cap).1
    unfolding handle_get_resource_info
    get_resource_info-Has = info-Has (word words 0)

    reassign_with :
        (r : ResourceInfo)
        → (resource_get_info k c (word words 0)).0 ≡ some r
        → Has laws Q h (handle_reassign_resource k c words cap).1
    unfolding handle_reassign_resource resource_reassign
    reassign_with r e =
        let v0 = info-Has (word words 0) in
        let c0 = (resource_get_info k c (word words 0)).1 in
        rw (e, handle_reassign_resource)
          (elim (Bool-cases (not (r.reserved_by == 0))) [
            | inl a ↦ rw a v0
            | inr a ↦ rw a (elim (Bool-cases (node_find_by_id k c0 (word words 1) == 0)) [
              | inl b ↦ rw b v0
              | inr b ↦
                  rw b (
                    Quiet-Has laws Q h (resource_call-Quiet k c0 (word words 0) 3 (word words 1))
                      v0)
            ])
          ])

    pub reassign_resource-Has : Has laws Q h (handle_reassign_resource k c words cap).1
    unfolding handle_reassign_resource
    reassign_resource-Has = elim (Option-cases (resource_get_info k c (word words 0)).0) [
      | inl e ↦ rw (e, handle_reassign_resource) (info-Has (word words 0))
      | inr (r, e) ↦ reassign_with r e
    ]
