-- ===== src/Jobs/Service/Steps.antt =====
-- The interleavings of the calls of one service, beside the other processes that use the store.
use textify.Prelude.{ℕ, suc, ◌-◌, ◌<◌, Bool, if◌then◌else◌}
use textify.Jobs.Types.{Uuid, NewQueuedTranscriptionJob}
use textify.Jobs.Tx.{Store}
use textify.Jobs.Repository.Policy.{Policy}
use textify.Jobs.Repository.Admission.{Fresh}
use textify.Jobs.Repository.Steps.{Call, after}
use textify.Jobs.Service.{
  Service, new_service, Locked, meets_failure, mark_store_unavailable, submit_locked, get_locked,
  cancel_locked,
}

-- `failures` counts the calls that met a failure of the store, `unmarked` those of them that have
-- not yet set the latch.
pub record World : Type 0 where
  pub service : Service
  pub store : Store
  pub failures : ℕ
  pub unmarked : ℕ

unfoldable pub new_world : Store → World
unfolding new_service
new_world s = record { service = new_service; store = s; failures = 0; unmarked = 0 }

-- The locked part of a call.
unfoldable pub enter {ℓ} : {A : Type ℓ} → World → Locked A × Store → World
unfolding meets_failure
enter w (g, t) =
    if meets_failure g
    then record w { store = t; failures = suc w.failures; unmarked = suc w.unmarked }
    else record w { store = t }

unfoldable pub mark : World → World
unfolding mark_store_unavailable
mark w = record w { service = mark_store_unavailable w.service; unmarked = w.unmarked - 1 }

pub data Step (p : Policy) (w : World) : World → Type 0 where
  submitted :
      (up : Bool) (now : ℕ) (fresh : Fresh) (new : NewQueuedTranscriptionJob)
      → Step p w (enter w (submit_locked p up now fresh new w.service w.store))
  asked_status :
      (up : Bool) (now : ℕ) (id : Uuid)
      → Step p w (enter w (get_locked p up now id w.service w.store))
  asked_cancel :
      (up : Bool) (now : ℕ) (id : Uuid)
      → Step p w (enter w (cancel_locked p up now id w.service w.store))
  marked : 0 < w.unmarked → Step p w (mark w)
  other : (c : Call) → Step p w (record w { store = after p c w.store })

pub data Run (p : Policy) (w : World) : World → Type 0 where
  here : Run p w w
  next : {t u : World} → Run p w t → Step p t u → Run p w u
