-- ===== src/Controller/ConfigSyncer/Loop.antt =====
-- The periodic run of the synchronisation.
use k4all_operator.Base.{◌≢◌, List, [], ◌∷◌, arith}
use k4all_operator.Base.Effect.{Error, err, ◌>>=◌, ignore}
use k4all_operator.Controller.ConfigSyncer.{
  Syncer, Wakeup, tick, cancelled, sync_config, wait_loop, start,
}
use k4all_operator.World.{Env}
use k4all_operator.World.Requests.{Sys}

module _ (E : Env) (syncer : Syncer) where
  wait_loop-ne-err :
      (wakeups : List Wakeup) (s : Sys E.State E.Unstructured) (e : Error)
      → (wait_loop E syncer wakeups s).0 ≢ err e
  unfolding wait_loop ◌>>=◌ ignore
  wait_loop-ne-err [] s e = λ p. cc
  wait_loop-ne-err (tick ∷ later) s e =
      ground (arith, wait_loop-ne-err later (sync_config E syncer s).1 e)
  wait_loop-ne-err (cancelled ∷ later) s e = λ p. cc

  -- The syncer never returns an error to its manager, whatever fails and how often it runs.
  pub start-ne-err :
      (wakeups : List Wakeup) (s : Sys E.State E.Unstructured) (e : Error)
      → (start E syncer wakeups s).0 ≢ err e
  unfolding start ◌>>=◌ ignore
  start-ne-err wakeups s e = ground (arith, wait_loop-ne-err wakeups (sync_config E syncer s).1 e)
