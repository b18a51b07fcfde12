-- ===== src/Cluster/Handlers/Guards.antt =====
-- What coreinit/cluster_scheduler.c asks before it creates a resource that needs an MMU.
use otos_coreinit.Base.{
  ℕ, suc, ◌≡◌, ◌⊎◌, refl, inl, inr, true, List, [], ◌∷◌, some, arith, ◌==◌, ◌&&◌, ◌||◌, get_elem?,
  Bool-cases,
}
use otos_coreinit.Kernel.{Kernel}
use otos_coreinit.Wire.{word, respond}
use otos_coreinit.Cluster.State.{Cluster, ResourceEntry}
use otos_coreinit.Cluster.Resources.{
  ResourceInfo, resource_get_info, owned_by, has_mmu_in, node_has_mmu, create_resource_object,
}
use otos_coreinit.Cluster.Asks.{
  Asked, Asked-refl, Asked-trans, owned_by-Asked, has_mmu_in-Asked, owned_told,
}
use otos_coreinit.Cluster.Handlers.{Reply, handle_declare_resource}

module _ (k : Kernel) where
  -- An entry of the index for an MMU in use whose object tells that the node owns it, when it is asked
  -- in a cluster where every resource has the data it has in `c`.
  pub record OwnsMmu (c : Cluster k) (node : ℕ) (es : List ResourceEntry) : Type 0 where
    pub i : ℕ
    pub entry : ResourceEntry
    pub at : get_elem? es i ≡ some entry
    pub used : entry.used ≡ true
    pub kind : entry.kind ≡ 3
    pub asked : Cluster k
    pub same : Asked c asked
    pub info : ResourceInfo
    pub told : (resource_get_info k asked entry.handle).0 ≡ some info
    pub owner : info.owner_node ≡ node

  tail_owns :
      (c d : Cluster k) (node : ℕ) (e : ResourceEntry) (es : List ResourceEntry)
      → Asked c d
      → OwnsMmu d node es
      → OwnsMmu c node (e ∷ es)
  tail_owns c d node e es q o = record {
    i = suc o.i;
    entry = o.entry;
    at = o.at;
    used = o.used;
    kind = o.kind;
    asked = o.asked;
    same = Asked-trans q o.same;
    info = o.info;
    told = o.told;
    owner = o.owner;
  }

  has_mmu_in-OwnsMmu :
      (c : Cluster k) (node : ℕ) (es : List ResourceEntry)
      → (has_mmu_in k c node es).0 ≡ true
      → OwnsMmu c node es
  unfolding has_mmu_in
  has_mmu_in-OwnsMmu c node [] = λ e. cc
  has_mmu_in-OwnsMmu c node (e ∷ es) = elim (Bool-cases (e.used && e.kind == 3)) [
    | inr m ↦ rw m (λ t. tail_owns c c node e es (Asked-refl c) (has_mmu_in-OwnsMmu c node es t))
    | inl m ↦ rw m (elim (Bool-cases (owned_by k c node e.handle).0) [
      | inr o ↦ rw o (λ t.
          tail_owns c (owned_by k c node e.handle).1 node e es (owned_by-Asked k c node e.handle)
            (has_mmu_in-OwnsMmu (owned_by k c node e.handle).1 node es t))
      | inl o ↦ rw o (λ t.
          let (r, told, owner) = owned_told k c node e.handle o in
          record {
            i = 0;
            entry = e;
            at = refl;
            used = ground arith;
            kind = ground arith;
            asked = c;
            same = Asked-refl c;
            info = r;
            told = told;
            owner = owner;
          })
    ])
  ]

  -- The node has an MMU, and the new resource is created with what was declared.
  pub record Declared (c : Cluster k) (words : List ℕ) (cap : ℕ) (r : Reply × Cluster k)
      : Type 0 where
    pub owns : OwnsMmu c (word words 0) c.resource_index
    pub d : Cluster k
    pub same : Asked c d
    pub created : r ≡ (
      respond cap (
          (create_resource_object k d
            (word words 0)
            (word words 1)
            (word words 2)
            (word words 3)
            (word words 4)
            0).0
          ∷ []),
      (create_resource_object k d
          (word words 0)
          (word words 1)
          (word words 2)
          (word words 3)
          (word words 4)
          0).1,
    )

  -- A STREAM or COW resource is created for a node only if some entry of the resource index is an MMU
  -- whose object tells that the node owns it; in any other case the answer is 0 and no job, index,
  -- handle, resource or claim changes.
  pub declare_resource-OwnsMmu :
      (c : Cluster k) (words : List ℕ) (cap : ℕ)
      → (word words 4 == 1 || word words 4 == 2) ≡ true
      → ((handle_declare_resource k c words cap).0 ≡ respond cap (0 ∷ []))
          × Asked c (handle_declare_resource k c words cap).1
        ⊎ Declared c words cap (handle_declare_resource k c words cap)
  unfolding handle_declare_resource node_has_mmu
  declare_resource-OwnsMmu c words cap sync =
      elim (Bool-cases (node_has_mmu k c (word words 0)).0) [
        | inl has ↦ inr (record {
          owns = has_mmu_in-OwnsMmu c (word words 0) c.resource_index has;
          d = (node_has_mmu k c (word words 0)).1;
          same = has_mmu_in-Asked k c (word words 0) c.resource_index;
          created = rw (sync, handle_declare_resource) (rw (has, node_has_mmu) refl);
        })
        | inr lacks ↦
            inl (rw sync (rw lacks (refl, has_mmu_in-Asked k c (word words 0) c.resource_index)))
      ]
