-- ===== src/Downloader/Delete/Stuck.antt =====
-- A decoder that keeps failing.
use k4all_operator.Base.{ℕ, zero, suc, ◌+◌, ◌≡◌, refl, subst, String, arith}
use k4all_operator.Base.Effect.{panic}
use k4all_operator.Downloader.Apply.{out_of_fuel}
use k4all_operator.Downloader.Delete.{delete_decoded, delete_documents}
use k4all_operator.World.{Env, malformed}
use k4all_operator.World.Requests.{Sys}

module _ (E : Env) where
  -- If the decoder fails from some call on for ever, as one does whose input fails, the loop does
  -- not end from that call on: it uses up any fuel, without a call of the API server.
  pub delete_documents-out_of_fuel :
      (body : E.Body) (n : ℕ) (reason : ℕ → String)
      → ((k : ℕ) → E.decode_yaml body (k + n) ≡ malformed (reason k))
      → (fuel : ℕ) (s : Sys E.State E.Unstructured)
      → delete_documents E fuel body n s ≡ (panic out_of_fuel, s)
  unfolding delete_documents delete_decoded
  delete_documents-out_of_fuel body n reason failing zero s = refl
  delete_documents-out_of_fuel body n reason failing (suc fuel) s = ground (
    arith,
    failing 0,
    delete_documents-out_of_fuel body (suc n) (λ k. reason (suc k)) (λ k. shifted k) fuel s,
  )
    where
      shifted : (k : ℕ) → E.decode_yaml body (k + suc n) ≡ malformed (reason (suc k))
      shifted k =
          subst (λ m. E.decode_yaml body m ≡ malformed (reason (suc k))) (omega arith)
            (failing (suc k))
