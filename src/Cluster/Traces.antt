-- ===== src/Cluster/Traces.antt =====
-- Sequences of calls of cluster_scheduler_handler (coreinit/cluster_scheduler.c), and what they
-- keep of one job.
pub mod Handles
pub mod Jobs
pub mod Finished
use otos_coreinit.Base.{ℕ, ◌≡◌, ◌≢◌, refl, sym, subst, List, [], ◌∷◌, All, AllAt, AllAt-of}
use otos_coreinit.Kernel.{Kernel, KernelLaws, Object}
use otos_coreinit.Wire.{word}
use otos_coreinit.Cluster.Objects.{Job}
use otos_coreinit.Cluster.State.{Cluster}
use otos_coreinit.Cluster.JobHandlers.{returned}
use otos_coreinit.MemMgr.{Window, Claim}
use otos_coreinit.Cluster.Dispatch.{Method, method_of, handler, init_schema}
use otos_coreinit.Cluster.Keeps.{Guard, Avoids, On, Has, Closed}
use otos_coreinit.Cluster.Keeps.JobMethods.{Returns, dispatch-Has}

-- One call of the handler: its method, the request's words and the room for the reply.
pub record Call : Type 0 where
  pub method_id : ℕ
  pub words : List ℕ
  pub cap : ℕ

-- The calls one after the other; each holds the scheduler's lock from start to end.
unfoldable pub run : (k : Kernel) → Cluster k → List Call → Cluster k
run k c [] = c
run k c (q ∷ qs) = run k (handler k c q.method_id q.words q.cap).1 qs

-- The call is a REPORT_JOB_RESULT for the job `h`.
abbrev pub Reports : ℕ → Call → Type 0
Reports h q = (method_of q.method_id ≡ Method.report_job_result) × (word q.words 0 ≡ h)

-- The kernel cannot be said not to have given out `h`.
abbrev pub given_out : {k : Kernel} → KernelLaws k → ℕ → Guard k
given_out {k} laws h = record {
  Keeps = λ s. ¬ ¬ k.Issued s h;
  create_keeps = λ s o known new. known (λ old. new (laws.create_keeps s o h old));
  destroy_keeps = λ s d known new. known (λ old. new (laws.destroy_keeps s d h old));
}

pub given_out-Avoids : {k : Kernel} (laws : KernelLaws k) (h : ℕ) → Avoids (given_out laws h) h
given_out-Avoids {k} laws h s o known made same =
    known (λ old. laws.create_fresh s o made (subst (k.Issued s) (sym same) old))

-- A kernel of which nothing is asked.
abbrev pub any_kernel : (k : Kernel) → Guard k
any_kernel k = record {
  Keeps = λ s. Unit;
  create_keeps = λ s o known. tt;
  destroy_keeps = λ s d known. tt;
}

module _ {k : Kernel} (laws : KernelLaws k) (Q : ℕ → Job → Type 0) (h : ℕ) (cl : Closed Q) where
  -- A run in which each report for `h` keeps `Q`.
  pub run-Has :
      (qs : List Call) (c : Cluster k)
      → All (λ q. Returns Q h (method_of q.method_id) q.words) qs
      → Has (given_out laws h) Q h c
      → Has (given_out laws h) Q h (run k c qs)
  unfolding run handler
  run-Has [] c keep v = v
  run-Has (q ∷ qs) c keep v = run-Has qs _ keep.1 (
      dispatch-Has (given_out laws h) Q h c cl v (method_of q.method_id) q.words q.cap
        (λ e. given_out-Avoids laws h) keep.0)

-- What the scheduler is started with: the kernel, the memory manager's handle, and its state.
pub record Boot (k : Kernel) : Type 0 where
  pub kernel : k.State
  pub memory_manager : ℕ
  pub window : Window
  pub claims : List Claim

-- The cluster after its start and the calls `qs`.
abbrev pub reached : (k : Kernel) → Boot k → List Call → Cluster k
reached k b qs = run k (init_schema k b.kernel b.memory_manager b.window b.claims) qs
