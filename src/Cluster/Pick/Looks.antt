-- ===== src/Cluster/Pick/Looks.antt =====
-- The looks that a pick takes at resources, in coreinit/cluster_scheduler.c, change no job.
use otos_coreinit.Base.{
  ℕ, ◌+◌, inl, inr, Bool, List, [], ◌∷◌, ◌==◌, not, ◌&&◌, if◌then◌else◌, Bool-cases,
}
use otos_coreinit.Kernel.{Kernel}
use otos_coreinit.Cluster.Objects.{Job, resource_kind_none}
use otos_coreinit.Cluster.State.{Cluster, JobSlot, ResourceEntry}
use otos_coreinit.Cluster.Resources.{ResourceInfo}
use otos_coreinit.Cluster.Quiet.{Quiet, Quiet-refl, Quiet-trans, resource_get_info-Quiet}
use otos_coreinit.Cluster.Pick.{
  Scan, info_passes, serves, any_serves, resource_ok_for, last_serving, choose_resource, eligible,
  considered, scan_jobs, offer, unblock,
}

module _ (k : Kernel) where
  info_passes-Quiet :
      (test : ResourceInfo → Bool) (c : Cluster k) (handle : ℕ)
      → Quiet c (info_passes k test c handle).1
  unfolding info_passes
  info_passes-Quiet test c handle = resource_get_info-Quiet k c handle

  serves-Quiet :
      (c : Cluster k) (kind min_capacity : ℕ) (e : ResourceEntry)
      → Quiet c (serves k c kind min_capacity e).1
  unfolding serves
  serves-Quiet c kind min_capacity e = elim (Bool-cases (e.used && e.kind == kind)) [
    | inl u ↦ rw u (info_passes-Quiet _ c e.handle)
    | inr u ↦ rw u (Quiet-refl c)
  ]

  any_serves-Quiet :
      (c : Cluster k) (kind min_capacity : ℕ) (es : List ResourceEntry)
      → Quiet c (any_serves k c kind min_capacity es).1
  unfolding any_serves
  any_serves-Quiet c kind min_capacity [] = Quiet-refl c
  any_serves-Quiet c kind min_capacity (e ∷ es) =
      let first = serves-Quiet c kind min_capacity e in
      elim (Bool-cases (serves k c kind min_capacity e).0) [
        | inl f ↦ rw f first
        | inr f ↦ rw f (
            Quiet-trans first
              (any_serves-Quiet (serves k c kind min_capacity e).1 kind min_capacity es))
      ]

  last_serving-Quiet :
      (c : Cluster k) (kind min_capacity : ℕ) (es : List ResourceEntry) (chosen : ℕ)
      → Quiet c (last_serving k c kind min_capacity es chosen).1
  unfolding last_serving
  last_serving-Quiet c kind min_capacity [] chosen = Quiet-refl c
  last_serving-Quiet c kind min_capacity (e ∷ es) chosen =
      Quiet-trans (serves-Quiet c kind min_capacity e) (
        last_serving-Quiet (serves k c kind min_capacity e).1 kind min_capacity es
          (if (serves k c kind min_capacity e).0 then e.handle else chosen))

  pub resource_ok_for-Quiet :
      (c : Cluster k) (handle : ℕ) (j : Job) → Quiet c (resource_ok_for k c handle j).1
  unfolding resource_ok_for
  resource_ok_for-Quiet c handle j = elim (Bool-cases (not (j.bound_resource_id == 0))) [
    | inl b ↦ rw b (info_passes-Quiet _ c j.bound_resource_id)
    | inr b ↦
        rw b (elim (Bool-cases (j.resource_id == 0 && j.resource_kind == resource_kind_none)) [
          | inl n ↦ rw n (Quiet-refl c)
          | inr n ↦ rw n (elim (Bool-cases (not (j.resource_id == 0))) [
            | inl r ↦ rw r (info_passes-Quiet _ c j.resource_id)
            | inr r ↦
                rw r (any_serves-Quiet c j.resource_kind j.resource_min_capacity c.resource_index)
          ])
        ])
  ]

  pub choose_resource-Quiet : (c : Cluster k) (j : Job) → Quiet c (choose_resource k c j).1
  unfolding choose_resource
  choose_resource-Quiet c j = elim (Bool-cases (not (j.resource_id == 0))) [
    | inl b ↦ rw b (Quiet-refl c)
    | inr b ↦ rw b (elim (Bool-cases (not (j.resource_kind == resource_kind_none))) [
      | inl n ↦
          rw n (last_serving-Quiet c j.resource_kind j.resource_min_capacity c.resource_index 0)
      | inr n ↦ rw n (Quiet-refl c)
    ])
  ]

  pub considered-Quiet : (c : Cluster k) (n : ℕ) (s : JobSlot) → Quiet c (considered k c n s).1
  unfolding considered
  considered-Quiet c n s =
      elim (Bool-cases ((s.used && not s.info.dispatched) && eligible n s.info)) [
        | inl b ↦ rw b (resource_ok_for-Quiet c s.handle s.info)
        | inr b ↦ rw b (Quiet-refl c)
      ]

  pub scan_jobs-Quiet :
      (c : Cluster k) (n : ℕ) (ss : List JobSlot) (i : ℕ) (sc : Scan)
      → Quiet c (scan_jobs k c n ss i sc).1
  unfolding scan_jobs
  scan_jobs-Quiet c n [] i sc = Quiet-refl c
  scan_jobs-Quiet c n (s ∷ ss) i sc =
      let here = (considered k c n s).0 in
      Quiet-trans (considered-Quiet c n s) (
        scan_jobs-Quiet (considered k c n s).1 n ss (i + 1)
          (if here then offer i (if here then unblock c.jobs s else s) sc else sc))
