-- ===== src/Cluster/Jobs/Completions.antt =====
-- The ring of completions of coreinit/cluster_scheduler.c: how long a result can be asked for.
use otos_coreinit.Base.{
  ℕ, zero, suc, ◌+◌, ◌%◌, ◌≤◌, ◌<◌, ◌≡◌, ◌≢◌, refl, ◌∙◌, inl, inr, true, List, [], ◌∷◌, some, arith,
  ◌==◌, length, set, length-set, All, AllAt, AllAt-set, Bool-cases, ==→eq,
}
use otos_coreinit.Kernel.{Kernel}
use otos_coreinit.Cluster.State.{Cluster, Completion, job_pool_size}
use otos_coreinit.Cluster.Jobs.{completion_record, completion_find}

-- Results recorded one after the other, each a job's handle and its value.
unfoldable pub record_all : {k : Kernel} → Cluster k → List (ℕ × ℕ) → Cluster k
record_all c [] = c
record_all c ((h, v) ∷ qs) = record_all (completion_record c h v) qs

-- The entry does not answer for the job `h`.
abbrev pub Silent : ℕ → Completion → Type 0
Silent h d = d.used ≡ true → d.job_handle ≢ h

-- The job's result stands at place `p`, and nowhere else.
abbrev Stands : ℕ → ℕ → ℕ → ℕ → Completion → Type 0
Stands h v p i d =
    (i ≡ p → d ≡ record { job_handle = h; value = v; used = true }) × (i ≢ p → Silent h d)

found_from :
    (ds : List Completion) (h v p b : ℕ)
    → AllAt (Stands h v p) b ds
    → b ≤ p
    → p < b + length ds
    → completion_find ds h ≡ some v
unfolding completion_find
found_from [] h v p b st lo hi = absurd (omega arith)
found_from (d ∷ ds) h v p b st lo hi = elim (Bool-cases (b == p)) [
  | inl e ↦ rw (st.0.0 (==→eq b p e)) (ground arith)
  | inr e ↦
      ground (
        arith,
        st.0.1 (ground arith),
        found_from ds h v p (b + 1) st.1 (ground arith) (omega arith),
      )
]

placed :
    (ds : List Completion) (h v p b i : ℕ)
    → All (Silent h) ds
    → p ≡ b + i
    → AllAt (Stands h v p) b (set ds i (record { job_handle = h; value = v; used = true }))
placed [] h v p b i quiet e = tt
placed (d ∷ ds) h v p b zero quiet e =
    (((λ here. refl), (λ ne. absurd (omega (arith, ne)))), others ds (b + 1) quiet.1 (omega arith))
  where
    others : (es : List Completion) (c : ℕ) → All (Silent h) es → p < c → AllAt (Stands h v p) c es
    others [] c q lt = tt
    others (x ∷ xs) c q lt =
        (((λ here. absurd (omega arith)), (λ ne. q.0)), others xs (c + 1) q.1 (omega arith))
placed (d ∷ ds) h v p b (suc i) quiet e = (
  ((λ here. absurd (omega arith)), (λ ne. quiet.0)),
  placed ds h v p (b + 1) i quiet.1 (omega arith),
)

-- Where the ring stands `d` records after the one of interest, at place `p`.
record Place {k : Kernel} (h v p d : ℕ) (c : Cluster k) : Type 0 where
  size : length c.completions ≡ job_pool_size
  inside : p < job_pool_size
  ahead : c.completion_next % job_pool_size ≡ (p + d) % job_pool_size
  stands : AllAt (Stands h v p) 0 c.completions

record-Place :
    {k : Kernel} (h v p d : ℕ) (c : Cluster k) (h' v' : ℕ)
    → h' ≢ h
    → 1 ≤ d
    → d < job_pool_size
    → Place h v p d c
    → Place h v p (d + 1) (completion_record c h' v')
unfolding completion_record
record-Place h v p d c h' v' other lo hi st = record {
  size = length-set c.completions _ _ ∙ st.size;
  inside = st.inside;
  ahead = omega (arith, st.ahead);
  stands =
      AllAt-set (Stands h v p) c.completions _ _ st.stands
        ((λ e. absurd (omega (arith, e, st.ahead, st.inside))), (λ ne u. other));
}

All-Place :
    {k : Kernel} (qs : List (ℕ × ℕ)) (h v p d : ℕ) (c : Cluster k)
    → All (λ q. q.0 ≢ h) qs
    → 1 ≤ d
    → d + length qs ≤ job_pool_size
    → Place h v p d c
    → AllAt (Stands h v p) 0 (record_all c qs).completions
      × (length (record_all c qs).completions ≡ job_pool_size)
unfolding record_all
All-Place [] h v p d c others lo hi st = (st.stands, st.size)
All-Place ((h', v') ∷ qs) h v p d c others lo hi st =
    All-Place qs h v p (d + 1) (completion_record c h' v') others.1 (omega arith) (omega arith)
      (record-Place h v p d c h' v' others.0 lo (omega arith) st)

-- A job's result is found after fewer than 32 results of other jobs were recorded since, whatever
-- place the ring has come to.
pub completion_find-record_all :
    {k : Kernel} (c : Cluster k) (h v : ℕ) (qs : List (ℕ × ℕ))
    → length c.completions ≡ job_pool_size
    → All (Silent h) c.completions
    → All (λ q. q.0 ≢ h) qs
    → length qs < job_pool_size
    → completion_find (record_all c ((h, v) ∷ qs)).completions h ≡ some v
unfolding record_all completion_record
completion_find-record_all c h v qs size fresh others few =
    let p = c.completion_next % job_pool_size in
    let st : Place h v p 1 (completion_record c h v) = record {
      size = length-set c.completions _ _ ∙ size;
      inside = omega arith;
      ahead = omega arith;
      stands = placed c.completions h v p 0 p fresh (omega arith);
    } in
    let found =
      All-Place qs h v p 1 (completion_record c h v) others (omega arith) (omega arith) st in
    found_from _ h v p 0 found.0 (omega arith) (omega (arith, found.1))
