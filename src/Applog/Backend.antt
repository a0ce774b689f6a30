-- ===== src/Applog/Backend.antt =====
-- The log backend of lib/applog/applog.c: what its calls leave for a snapshot.
use mcu_sdk.Base.{ℕ, ◌-◌, ◌<◌, min, ◌≡◌, refl, ap, ◌∙◌, Bytes, List, [], ◌∷◌, ◌++◌, length, room}
use mcu_sdk.Applog.{
  Ring, empty, out_write, applog_process, applog_init, applog_panic, applog_dropped, BackendCall,
  process, init, panic, dropped, applog_api, snapshot,
}
use mcu_sdk.Applog.Refine.{last, logged, after, snapshot-last}

-- The pieces of all messages, and their text.
abbrev pub pieces_of : List BackendCall → List Bytes
pieces_of [] = []
pieces_of (process pieces ∷ calls) = pieces ++ pieces_of calls
pieces_of (init ∷ calls) = pieces_of calls
pieces_of (panic ∷ calls) = pieces_of calls
pieces_of (dropped cnt ∷ calls) = pieces_of calls

abbrev pub text_of : List BackendCall → Bytes
text_of calls = logged (pieces_of calls)

module _ (size : ℕ) where
  -- The ring after a sequence of calls.
  unfoldable pub run_backend : Ring → List BackendCall → Ring
  unfolding applog_api
  run_backend r [] = r
  run_backend r (x ∷ calls) = run_backend (applog_api size x r) calls

  applog_process-after :
      (r : Ring) (ss ts : List Bytes)
      → after size (applog_process size r ss) ts ≡ after size r (ss ++ ts)
  unfolding applog_process out_write
  applog_process-after r [] ts = refl
  applog_process-after r (s ∷ ss) ts = applog_process-after (out_write size r s) ss ts

  run_backend-after :
      (r : Ring) (calls : List BackendCall) → run_backend r calls ≡ after size r (pieces_of calls)
  unfolding run_backend applog_api applog_init applog_panic applog_dropped
  run_backend-after r [] = refl
  run_backend-after r (process pieces ∷ calls) =
      run_backend-after (applog_process size r pieces) calls
      ∙ applog_process-after r pieces (pieces_of calls)
  run_backend-after r (init ∷ calls) = run_backend-after r calls
  run_backend-after r (panic ∷ calls) = run_backend-after r calls
  run_backend-after r (dropped cnt ∷ calls) = run_backend-after r calls

  -- Whatever calls Zephyr makes of the log backend, and in whatever pieces it formats the messages, a
  -- snapshot of a ring of `size` bytes, at least one, with room for `cap` bytes, at least one, holds the
  -- last bytes of the text, oldest first: `cap - 1` of them, or all that are retained, which are the
  -- last `size` at most.
  pub run_backend-last :
      (calls : List BackendCall) (cap : ℕ)
      → 0 < size
      → 0 < cap
      → snapshot size (run_backend (empty size) calls) (room cap)
        ≡ last (min (cap - 1) (min size (length (text_of calls)))) (text_of calls)
  run_backend-last calls cap h pos =
      ap (λ r. snapshot size r (room cap)) (run_backend-after (empty size) calls)
      ∙ snapshot-last size (pieces_of calls) cap h pos
