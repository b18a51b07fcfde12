-- ===== src/Cluster/Keeps/Calls.antt =====
-- The steps that the methods of coreinit/cluster_scheduler.c are made of, and what they keep of a job.
use otos_coreinit.Base.{
  ℕ, inl, inr, List, [], ◌∷◌, arith, ◌==◌, leb, AllAt-set, Bool-cases, Option-cases,
}
use otos_coreinit.Kernel.{Kernel, resource, node, job}
use otos_coreinit.Cluster.Objects.{Job}
use otos_coreinit.Cluster.State.{Cluster, ResourceEntry, destroy, resource_pool_size, max_nodes}
use otos_coreinit.Cluster.Resources.{create_resource_object, owned_by}
use otos_coreinit.Cluster.Nodes.{create_node_object, node_destroy, find_node}
use otos_coreinit.Cluster.Jobs.{find_job, free_slot, create_job_object, destroy_job_object}
use otos_coreinit.Cluster.Quiet.{Quiet, owned_by-Quiet}
use otos_coreinit.Cluster.Handlers.{sweep_resources}
use otos_coreinit.Cluster.Keeps.{Guard, Avoids, On, Has, clear_slot-On}

module _ {k : Kernel} (laws : Guard k) (Q : ℕ → Job → Type 0) (h : ℕ) where
  pub Quiet-Has : {c d : Cluster k} → Quiet c d → Has laws Q h c → Has laws Q h d
  Quiet-Has q v = record { issued = rw (q.kernel) v.issued; on = rw (q.jobs) v.on }

  pub destroy-Has : (c : Cluster k) (d : ℕ) → Has laws Q h c → Has laws Q h (destroy k c d)
  unfolding destroy
  destroy-Has c d v = record { issued = laws.destroy_keeps c.kernel d v.issued; on = v.on }

  pub create_resource_object-Has :
      (c : Cluster k) (a b d e f g : ℕ)
      → Has laws Q h c
      → Has laws Q h (create_resource_object k c a b d e f g).1
  unfolding create_resource_object
  create_resource_object-Has c a b d e f g v =
      let issued = laws.create_keeps c.kernel (resource c.resource_storage_next) v.issued in
      elim (Bool-cases (leb resource_pool_size c.resource_storage_next)) [
        | inl full ↦ rw full (record { issued = v.issued; on = v.on })
        | inr room ↦
            rw room
              (elim (Bool-cases ((k.create c.kernel (resource c.resource_storage_next)).0 == 0)) [
                | inl z ↦ rw z (record { issued = issued; on = v.on })
                | inr z ↦ rw z (record { issued = issued; on = v.on })
              ])
      ]

  pub create_node_object-Has :
      (c : Cluster k) (a b d : ℕ) → Has laws Q h c → Has laws Q h (create_node_object k c a b d).1
  unfolding create_node_object
  create_node_object-Has c a b d v =
      let issued = laws.create_keeps c.kernel (node c.node_storage_next) v.issued in
      elim (Bool-cases (leb max_nodes c.node_storage_next)) [
        | inl full ↦ rw full (record { issued = v.issued; on = v.on })
        | inr room ↦
            rw room (elim (Bool-cases ((k.create c.kernel (node c.node_storage_next)).0 == 0)) [
              | inl z ↦ rw z (record { issued = issued; on = v.on })
              | inr z ↦ rw z (record { issued = issued; on = v.on })
            ])
      ]

  pub create_job_object-Has :
      (c : Cluster k) (j : Job)
      → Avoids laws h
      → Has laws Q h c
      → Has laws Q h (create_job_object k c j).1
  unfolding create_job_object
  create_job_object-Has c j new v = elim (Option-cases (free_slot c.jobs)) [
    | inl n ↦ rw (n, create_job_object) v
    | inr (i, e) ↦
        let issued = laws.create_keeps c.kernel (job i) v.issued in
        rw (e, create_job_object)
          (elim (Bool-cases ((k.create c.kernel (job i)).0 == 0)) [
            | inl z ↦ rw z (record {
              issued = issued;
              on = AllAt-set (On Q h) c.jobs i _ v.on (λ used at. cc);
            })
            | inr z ↦ rw z (record {
              issued = issued;
              on =
                  AllAt-set (On Q h) c.jobs i _ v.on
                    (λ used at. absurd (new c.kernel (job i) v.issued (ground arith) at));
            })
          ])
  ]

  pub destroy_job_object-Has :
      (c : Cluster k) (d : ℕ) → Has laws Q h c → Has laws Q h (destroy_job_object k c d)
  unfolding destroy_job_object
  destroy_job_object-Has c d v = elim (Option-cases (find_job c.jobs d)) [
    | inl n ↦ rw (n, destroy_job_object) v
    | inr (i, e) ↦
        rw (e, destroy_job_object)
          (record { issued = (destroy-Has c d v).issued; on = clear_slot-On Q h c.jobs 0 d v.on })
  ]

  pub node_destroy-Has :
      (c : Cluster k) (n : ℕ) → Has laws Q h c → Has laws Q h (node_destroy k c n)
  unfolding node_destroy destroy
  node_destroy-Has c n v = elim (Option-cases (find_node n c.node_index)) [
    | inl e ↦ rw (e, node_destroy) v
    | inr (d, e) ↦
        rw (e, node_destroy) (record { issued = (destroy-Has c d.handle v).issued; on = v.on })
  ]

  pub sweep_resources-Has :
      (c : Cluster k) (n : ℕ) (es : List ResourceEntry)
      → Has laws Q h c
      → Has laws Q h (sweep_resources k c n es).1
  unfolding sweep_resources
  sweep_resources-Has c n [] v = v
  sweep_resources-Has c n (e ∷ es) v =
      let c1 = (owned_by k c n e.handle).1 in
      let v1 = Quiet-Has (owned_by-Quiet k c n e.handle) v in
      elim (Bool-cases e.used) [
        | inr u ↦ rw u (sweep_resources-Has c n es v)
        | inl u ↦ rw u (elim (Bool-cases (owned_by k c n e.handle).0) [
          | inl o ↦
              rw o (sweep_resources-Has (destroy k c1 e.handle) n es (destroy-Has c1 e.handle v1))
          | inr o ↦ rw o (sweep_resources-Has c1 n es v1)
        ])
      ]
