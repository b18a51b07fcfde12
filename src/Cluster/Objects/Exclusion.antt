-- ===== src/Cluster/Objects/Exclusion.antt =====
-- Reservations and mutexes of coreinit/cluster_scheduler.c: who holds one keeps it.
use otos_coreinit.Base.{ℕ, ◌≡◌, ◌≢◌, refl, true, false, List, [], ◌∷◌, some, arith, All, ◌∙◌, ap}
use otos_coreinit.Wire.{word}
use otos_coreinit.Cluster.Objects.{
  Resource, resource_handler, reserve, release_reservation, reassign, Mutex, mutex_handler,
  try_lock, unlock,
}

-- A method number and the words of its request.
abbrev pub Request : Type 0
Request = ℕ × List ℕ

-- The resource after calls of its handler.
pub serve_resource : Resource → List Request → Resource
serve_resource r [] = r
serve_resource r ((m, ws) ∷ qs) = serve_resource (resource_handler r m ws 64).1 qs

pub serve_mutex : Mutex → List Request → Mutex
serve_mutex x [] = x
serve_mutex x ((m, ws) ∷ qs) = serve_mutex (mutex_handler x m ws 64).1 qs

-- A call of method `m` by the job `j`.
abbrev pub By : ℕ → ℕ → Request → Type 0
By m j q = (q.0 ≡ m) × (word q.1 0 ≡ j)

keeps_reservation :
    (r : Resource) (m : ℕ) (ws : List ℕ)
    → r.reserved_by ≢ 0
    → ¬ ((m ≡ 2) × (word ws 0 ≡ r.reserved_by))
    → (resource_handler r m ws 64).1 ≡ r
unfolding resource_handler reserve release_reservation reassign
keeps_reservation r m ws held other = ground (arith, other)

serve_resource_same :
    (r : Resource) (qs : List Request)
    → r.reserved_by ≢ 0
    → All (λ q. ¬ By 2 r.reserved_by q) qs
    → serve_resource r qs ≡ r
unfolding serve_resource
serve_resource_same r [] held quiet = refl
serve_resource_same r ((m, ws) ∷ qs) held quiet =
    ap (λ (x : Resource). serve_resource x qs) (keeps_reservation r m ws held quiet.0)
    ∙ serve_resource_same r qs held quiet.1

-- A resource that a job has reserved does not change, whatever its handler is asked, until that job
-- releases it: no other job can reserve it, nobody can reassign it, and the job itself reserves it
-- again at any time.
pub reservation-Exclusive :
    (r : Resource) (qs : List Request) (other node : ℕ)
    → r.reserved_by ≢ 0
    → other ≢ r.reserved_by
    → All (λ q. ¬ By 2 r.reserved_by q) qs
    → (serve_resource r qs ≡ r)
      × (reserve (serve_resource r qs) other ≡ (false, r))
      × (reassign (serve_resource r qs) node ≡ (false, r))
      × (reserve (serve_resource r qs) r.reserved_by ≡ (true, r))
unfolding reserve reassign
reservation-Exclusive r qs other node held ne quiet =
    rw (serve_resource_same r qs held quiet) (refl, ground arith, ground arith, ground arith)

keeps_lock :
    (x : Mutex) (m : ℕ) (ws : List ℕ)
    → x.locked ≡ true
    → ¬ ((m ≡ 1) × (word ws 0 ≡ x.holder_job_id))
    → (mutex_handler x m ws 64).1 ≡ x
unfolding mutex_handler try_lock unlock
keeps_lock x m ws held other = ground (arith, other)

serve_mutex_same :
    (x : Mutex) (qs : List Request)
    → x.locked ≡ true
    → All (λ q. ¬ By 1 x.holder_job_id q) qs
    → serve_mutex x qs ≡ x
unfolding serve_mutex
serve_mutex_same x [] held quiet = refl
serve_mutex_same x ((m, ws) ∷ qs) held quiet =
    ap (λ (y : Mutex). serve_mutex y qs) (keeps_lock x m ws held quiet.0)
    ∙ serve_mutex_same x qs held quiet.1

-- A mutex that a job holds does not change, whatever its handler is asked, until that job unlocks
-- it: every attempt to lock it is refused and told the holder, and after the holder's unlock the
-- next attempt gets it.
pub lock-Exclusive :
    (x : Mutex) (qs : List Request) (j : ℕ)
    → x.locked ≡ true
    → All (λ q. ¬ By 1 x.holder_job_id q) qs
    → (serve_mutex x qs ≡ x)
      × (mutex_handler (serve_mutex x qs) 0 (j ∷ []) 64 ≡ (some (0 ∷ x.holder_job_id ∷ []), x))
      × (try_lock (unlock (serve_mutex x qs) x.holder_job_id).1 j
          ≡ (true, record { locked = true; holder_job_id = j }))
unfolding mutex_handler try_lock unlock
lock-Exclusive x qs j held quiet =
    rw (serve_mutex_same x qs held quiet) (refl, ground arith, ground arith)
