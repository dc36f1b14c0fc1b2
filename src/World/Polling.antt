-- ===== src/World/Polling.antt =====
-- What the program relies on of `wait.PollUntilContextTimeout`.
use k4all_operator.Base.{ℕ, Bool, true, ◌≡◌}
use k4all_operator.Base.Effect.{ok}
use k4all_operator.Base.Keeps.{Keeps}
use k4all_operator.World.{Env, Program, waited}
use k4all_operator.World.Requests.{Sys}

pub record IsPolling (E : Env) : Type 1 where
  -- it makes no calls but those of the condition, and waits between them
  pub keeps :
      (P : Sys E.State E.Unstructured → Type 0) (interval timeout : ℕ) (immediate : Bool)
      (condition : Program E Bool)
      → ((n : ℕ) (s : Sys E.State E.Unstructured) → P s → P (waited E n s))
      → Keeps P condition
      → Keeps P (E.poll interval timeout immediate condition)
  -- it returns nil only right after the condition, which it ran after waits and runs of it, has
  -- returned true
  pub met :
      (P : Sys E.State E.Unstructured → Type 0) (interval timeout : ℕ) (immediate : Bool)
      (condition : Program E Bool) (s : Sys E.State E.Unstructured)
      → ((n : ℕ) (t : Sys E.State E.Unstructured) → P t → P (waited E n t))
      → Keeps P condition
      → P s
      → (E.poll interval timeout immediate condition s).0 ≡ ok tt
      → (before : Sys E.State E.Unstructured) × P before
        × (condition before ≡ (ok true, (E.poll interval timeout immediate condition s).1))
