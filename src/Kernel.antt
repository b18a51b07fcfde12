-- ===== src/Kernel.antt =====
-- What coreinit asks of the kernel that hosts its objects, which is not part of this repository:
-- the factory object's CREATE and DESTROY, and the dispatch of `kernel_invoke` on a handle
-- (coreinit/cluster_scheduler.c calls all three through `g_kernel_invoke`).
pub mod Table
use otos_coreinit.Base.{ℕ, ◌≡◌, ◌≢◌, Option, none, some}

-- A capability record's handler together with its data pointer, as an index into the storage that
-- the handler's module owns.
pub data Object : Type 0 where
  resource node mutex job : ℕ → Object
  memory_manager : Object

pub record Kernel : Type 1 where
  pub State : Type 0
  -- The object behind a live handle.
  pub resolve : State → ℕ → Option Object
  -- The new handle (0 for a refusal) and the kernel after the call.
  pub create : State → Object → ℕ × State
  pub destroy : State → ℕ → State
  -- The handles that were ever given out.
  pub Issued : State → ℕ → Type 0

-- Handles are given out once and never used again (the factory's invariant, which the comment over
-- `destroy_job_object` in coreinit/cluster_scheduler.c cites), and each names one object.
pub record KernelLaws (k : Kernel) : Type 1 where
  pub create_fresh :
      (s : k.State) (o : Object) → (k.create s o).0 ≢ 0 → ¬ k.Issued s (k.create s o).0
  pub create_issues :
      (s : k.State) (o : Object) → (k.create s o).0 ≢ 0 → k.Issued (k.create s o).1 (k.create s o).0
  pub create_keeps : (s : k.State) (o : Object) (h : ℕ) → k.Issued s h → k.Issued (k.create s o).1 h
  pub destroy_keeps : (s : k.State) (d h : ℕ) → k.Issued s h → k.Issued (k.destroy s d) h
  pub create_resolves :
      (s : k.State) (o : Object)
      → (k.create s o).0 ≢ 0
      → k.resolve (k.create s o).1 (k.create s o).0 ≡ some o
  pub create_others :
      (s : k.State) (o : Object) (h : ℕ)
      → h ≢ (k.create s o).0
      → k.resolve (k.create s o).1 h ≡ k.resolve s h
  pub destroy_resolves : (s : k.State) (d : ℕ) → k.resolve (k.destroy s d) d ≡ none
  pub destroy_others : (s : k.State) (d h : ℕ) → h ≢ d → k.resolve (k.destroy s d) h ≡ k.resolve s h
