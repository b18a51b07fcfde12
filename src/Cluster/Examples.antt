-- ===== src/Cluster/Examples.antt =====
-- Concrete clusters of coreinit/cluster_scheduler.c.
mod Sequences
mod Methods
use otos_coreinit.Base.{ℕ, List, [], ◌∷◌}
use otos_coreinit.Kernel.{memory_manager}
use otos_coreinit.Kernel.Table.{table_kernel}
use otos_coreinit.Cluster.State.{Cluster}
use otos_coreinit.Cluster.Traces.{Call, Boot, reached}

abbrev pub boot : Boot table_kernel
boot = record {
  kernel = record { count = 1; live = (1, memory_manager) ∷ [] };
  memory_manager = 1;
  window = record { alloc_min = 4096; alloc_max = 1048576 };
  claims = [];
}

abbrev pub any : ℕ
any = 0xFFFFFFFFFFFFFFFF

abbrev pub call : ℕ → List ℕ → Call
call method_id words = record { method_id = method_id; words = words; cap = 64 }

-- SUBMIT_JOB for any node, with a resource (0 for none).
abbrev pub submit : ℕ → ℕ → ℕ → Call
submit type priority resource_id =
    call 5 (any ∷ type ∷ 11 ∷ 12 ∷ priority ∷ resource_id ∷ any ∷ 0 ∷ [])

abbrev pub get_next_job : ℕ → Call
get_next_job node_id = call 6 (node_id ∷ [])

-- The jobs 11 and 12.
abbrev pub two_jobs : List Call
two_jobs = submit 3 1 0 ∷ submit 4 2 0 ∷ []

abbrev pub c2 : Cluster table_kernel
c2 = reached table_kernel boot two_jobs
