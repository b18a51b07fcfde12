-- ===== src/Cluster/Handlers/Releases.antt =====
-- When coreinit/cluster_scheduler.c gives a slice of memory back.
use otos_coreinit.Base.{ℕ, ◌≡◌, ◌≢◌, ◌⊎◌, true, false, List, [], ◌∷◌, none, some}
use otos_coreinit.Kernel.{Kernel}
use otos_coreinit.MemMgr.{free_locked}
use otos_coreinit.Wire.{word, respond}
use otos_coreinit.Cluster.State.{Cluster}
use otos_coreinit.Cluster.Resources.{ResourceInfo, resource_get_info}
use otos_coreinit.Cluster.Asks.{Asked}
use otos_coreinit.Cluster.Handlers.{Reply, drop_entry}

module _ (k : Kernel) where
  -- Why a slice stays: the resource tells nothing, or that it is no memory, or that another job
  -- holds it, or the memory manager has no claim in use that starts where it does.
  pub data Stays (c : Cluster k) (resource job : ℕ) : Type 0 where
    silent : (resource_get_info k c resource).0 ≡ none → Stays c resource job
    no_memory :
        (r : ResourceInfo)
        → (resource_get_info k c resource).0 ≡ some r
        → r.kind ≢ 0
        → Stays c resource job
    another_job :
        (r : ResourceInfo)
        → (resource_get_info k c resource).0 ≡ some r
        → r.reserved_by ≢ job
        → Stays c resource job
    no_claim :
        (r : ResourceInfo)
        → (resource_get_info k c resource).0 ≡ some r
        → (free_locked c.claims r.descriptor).0 ≡ false
        → Stays c resource job

  -- Why a slice was given back, and what is left of it.
  pub record Released (c : Cluster k) (resource job : ℕ) (d : Cluster k) : Type 0 where
    pub info : ResourceInfo
    pub told : (resource_get_info k c resource).0 ≡ some info
    pub memory : info.kind ≡ 0
    pub holder : info.reserved_by ≡ job
    pub freed : free_locked c.claims info.descriptor ≡ (true, d.claims)
    pub destroyed : k.resolve d.kernel resource ≡ none
    pub dropped : d.resource_index ≡ drop_entry resource c.resource_index
    pub jobs : d.jobs ≡ c.jobs

  -- The two outcomes of a request to give a slice back.
  abbrev pub Outcome : Cluster k → List ℕ → ℕ → Reply × Cluster k → Type 0
  Outcome c words cap r =
      ((r.0 ≡ respond cap (0 ∷ [])) × Asked c r.1 × Stays c (word words 0) (word words 1))
      ⊎ ((r.0 ≡ respond cap (1 ∷ [])) × Released c (word words 0) (word words 1) r.1)
