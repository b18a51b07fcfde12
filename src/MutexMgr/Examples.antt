-- ===== src/MutexMgr/Examples.antt =====
-- The mutex table of coreinit/mutex_mgr.c from its start.
use otos_coreinit.Base.{◌≡◌, refl, true, false, List, [], ◌∷◌, some, none, arith}
use otos_coreinit.Wire.{respond}
use otos_coreinit.MutexMgr.{Slot, init_schema, handler, free_mutex, create, on_mutex}
use otos_coreinit.MutexMgr.Exclusion.{Request, serve, lock-Exclusive_mgr}

abbrev created : List Slot
created = record { used = true; locked = false } ∷ record { used = false; locked = false } ∷ []

creates_first :
    handler init_schema 0 (0 ∷ []) 24 ≡ (some (0 ∷ []), (handler init_schema 0 (0 ∷ []) 24).1)
unfolding handler create free_mutex
creates_first = refl

refuses_unknown : handler created 1 (1 ∷ []) 24 ≡ (none, created)
unfolding handler on_mutex
refuses_unknown = refl

abbrev traffic : List Request
traffic =
    record { method_id = 1; words = 0 ∷ []; cap = 24 }
    ∷ record { method_id = 0; words = 0 ∷ []; cap = 24 }
    ∷ record { method_id = 2; words = 1 ∷ []; cap = 24 }
    ∷ []

lock-Exclusive_mgr_example :
    ((handler created 1 (0 ∷ []) 24).0 ≡ respond 24 (1 ∷ []))
    × ((handler (serve (handler created 1 (0 ∷ []) 24).1 traffic) 1 (0 ∷ []) 24).0
        ≡ respond 24 (0 ∷ []))
    × ((handler
          (handler (serve (handler created 1 (0 ∷ []) 24).1 traffic) 2 (0 ∷ []) 24).1
          1
          (0 ∷ [])
          24).0
        ≡ respond 24 (1 ∷ []))
lock-Exclusive_mgr_example =
    lock-Exclusive_mgr created 0 24 traffic (omega arith) refl (omega arith)
