-- ===== src/Cluster/State.antt =====
-- The state of coreinit/cluster_scheduler.c: its object pools, its discovery indexes, and the
-- kernel and memory manager that it calls.
use otos_coreinit.Base.{
  ℕ, Bool, List, [], ◌∷◌, Option, none, some, ◌==◌, if◌then◌else◌, get_elem?, set, leb, length,
}
use otos_coreinit.Kernel.{Kernel, Object, resource, node, mutex, job, memory_manager}
use otos_coreinit.MemMgr.{Window, Claim}
use otos_coreinit.MemMgr
use otos_coreinit.Wire.{reply_len}
use otos_coreinit.Cluster.Objects.{
  Resource, Node, Mutex, Job, resource_handler, node_handler, mutex_handler, job_handler,
}

abbrev pub resource_pool_size : ℕ
resource_pool_size = 128

abbrev pub max_nodes : ℕ
max_nodes = 16

abbrev pub max_alloc_records : ℕ
max_alloc_records = 32

abbrev pub max_mutexes : ℕ
max_mutexes = 8

abbrev pub job_pool_size : ℕ
job_pool_size = 32

-- `resource_index_entry_t`
pub record ResourceEntry : Type 0 where
  pub handle : ℕ
  pub kind : ℕ
  pub used : Bool

-- `node_index_entry_t`
pub record NodeEntry : Type 0 where
  pub handle : ℕ
  pub node_id : ℕ
  pub used : Bool

-- `alloc_entry_t`
pub record AllocEntry : Type 0 where
  pub node_id : ℕ
  pub base : ℕ
  pub size : ℕ
  pub kind : ℕ
  pub used : Bool

-- One index of `g_job_storage_used`, `g_job_handles` and `g_job_storage`.
pub record JobSlot : Type 0 where
  pub used : Bool
  pub handle : ℕ
  pub info : Job

-- `completion_t`
pub record Completion : Type 0 where
  pub job_handle : ℕ
  pub value : ℕ
  pub used : Bool

pub record Cluster (k : Kernel) : Type 0 where
  pub kernel : k.State
  pub resource_storage : List Resource
  pub resource_storage_next : ℕ
  pub resource_index : List ResourceEntry
  pub allocs : List AllocEntry
  pub pool_resource : ℕ
  pub node_storage : List Node
  pub node_storage_next : ℕ
  pub node_index : List NodeEntry
  pub mutex_storage : List Mutex
  pub mutex_handles : List ℕ
  pub jobs : List JobSlot
  pub completions : List Completion
  pub completion_next : ℕ
  pub memory_manager : ℕ
  pub window : Window
  pub claims : List Claim
  -- The targets that `cross_core_signal_send` was called with, newest first.
  pub signals : List ℕ

-- The first entry that is not used is overwritten; with none, nothing is.
unfoldable pub fill_first {ℓ} : {A : Type ℓ} → (A → Bool) → A → List A → List A
fill_first used a [] = []
fill_first used a (x ∷ xs) = if used x then x ∷ fill_first used a xs else a ∷ xs

-- The data words of a method's parameters in schemas/coreinit.capnp, 0 for an unknown method. (A
-- message has a word at least.)
unfoldable pub param_words : Object → ℕ → ℕ
param_words (resource i) method_id = if leb method_id 3 then 1 else 0
param_words (node i) method_id = if leb method_id 1 then 1 else 0
param_words (mutex i) method_id = if leb method_id 1 then 1 else 0
param_words (job i) method_id = if method_id == 0 then 1 else if method_id == 1 then 6 else 0
param_words memory_manager method_id =
    if method_id == 0 then 3 else if method_id == 1 then 2 else if method_id == 2 then 1 else 0

module _ (k : Kernel) where
  unfoldable pub call_resource : Cluster k → ℕ → ℕ → List ℕ → ℕ → Option (List ℕ) × Cluster k
  call_resource c i method_id words cap = elim (get_elem? c.resource_storage i) [
    | none ↦ (none, c)
    | some r ↦
        let (reply, r') = resource_handler r method_id words cap in
        (reply, record c { resource_storage = set c.resource_storage i r' })
  ]

  unfoldable pub call_node : Cluster k → ℕ → ℕ → ℕ → Option (List ℕ) × Cluster k
  call_node c i method_id cap = elim (get_elem? c.node_storage i) [
    | none ↦ (none, c)
    | some n ↦
        let (reply, sent) = node_handler n method_id cap in
        elim sent [
          | none ↦ (reply, c)
          | some target ↦ (reply, record c { signals = target ∷ c.signals })
        ]
  ]

  unfoldable pub call_mutex : Cluster k → ℕ → ℕ → List ℕ → ℕ → Option (List ℕ) × Cluster k
  call_mutex c i method_id words cap = elim (get_elem? c.mutex_storage i) [
    | none ↦ (none, c)
    | some m ↦
        let (reply, m') = mutex_handler m method_id words cap in
        (reply, record c { mutex_storage = set c.mutex_storage i m' })
  ]

  unfoldable pub call_job : Cluster k → ℕ → ℕ → List ℕ → ℕ → Option (List ℕ) × Cluster k
  call_job c i method_id words cap = elim (get_elem? c.jobs i) [
    | none ↦ (none, c)
    | some s ↦
        let (reply, j) = job_handler s.info method_id words cap in
        (reply, record c { jobs = set c.jobs i (record s { info = j }) })
  ]

  unfoldable pub call_memory : Cluster k → ℕ → List ℕ → ℕ → Option (List ℕ) × Cluster k
  call_memory c method_id words cap =
      let (reply, cs) = MemMgr.handler c.window c.claims method_id words cap in
      (reply, record c { claims = cs })

  unfoldable pub call_object : Cluster k → Object → ℕ → List ℕ → ℕ → Option (List ℕ) × Cluster k
  unfolding call_resource call_node call_mutex call_job call_memory
  call_object c (resource i) method_id words cap = call_resource c i method_id words cap
  call_object c (node i) method_id words cap = call_node c i method_id cap
  call_object c (mutex i) method_id words cap = call_mutex c i method_id words cap
  call_object c (job i) method_id words cap = call_job c i method_id words cap
  call_object c memory_manager method_id words cap = call_memory c method_id words cap

  -- `g_kernel_invoke` on a handle: `none` is a refused call or an empty reply. The kernel refuses a
  -- message that does not have the shape of the object's method.
  unfoldable pub invoke : Cluster k → ℕ → ℕ → List ℕ → ℕ → Option (List ℕ) × Cluster k
  unfolding call_object
  invoke c handle method_id words cap = elim (k.resolve c.kernel handle) [
    | none ↦ (none, c)
    | some o ↦
        if length words == param_words o method_id
        then call_object c o method_id words cap
        else (none, c)
  ]

  -- The factory's DESTROY.
  unfoldable pub destroy : Cluster k → ℕ → Cluster k
  destroy c handle = record c { kernel = k.destroy c.kernel handle }

-- The reply, if the call gave one of at least `n` bytes.
unfoldable pub at_least : ℕ → Option (List ℕ) → Option (List ℕ)
at_least n none = none
at_least n (some ws) = if leb n (reply_len (some ws)) then some ws else none
