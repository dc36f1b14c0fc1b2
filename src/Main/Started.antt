-- ===== src/Main/Started.antt =====
-- When main returns, and what it did when it exits.
use k4all_operator.Base.{String, ◌≡◌, refl, sym, ◌∙◌, ap, ◌⊎◌, inl, inr, List, [], ◌∷◌, ◌++◌, arith}
use k4all_operator.Base.Effect.{Error, Result, ok, err, Action, pure, Result-cases, handle}
use k4all_operator.Controller.ClusterConfigReconciler.{setup_with_manager}
use k4all_operator.Main.{
  Flags, manager_options, cluster_config_reconciler, argocd_reconciler, virt_reconciler,
  config_syncer, ManagerCall, new_manager, register_cluster_config, register_argocd, register_virt,
  add_syncer, add_healthz_check, add_readyz_check, start_manager, Exit, returned, exited, main,
}

-- What the set-up is to do, in this order: each call, with the message that is logged if it fails.
abbrev pub setup_steps : Flags → List (ManagerCall × String)
setup_steps flags =
    (new_manager (manager_options flags), "unable to start manager")
    ∷ (
      register_cluster_config (setup_with_manager (cluster_config_reconciler flags)),
      "unable to create controller",
    )
    ∷ (register_argocd (argocd_reconciler flags), "unable to create controller")
    ∷ (register_virt (virt_reconciler flags), "unable to create controller")
    ∷ (add_syncer config_syncer, "unable to set up config syncer")
    ∷ (add_healthz_check "healthz", "unable to set up health check")
    ∷ (add_readyz_check "readyz", "unable to set up ready check")
    ∷ (start_manager, "problem running manager")
    ∷ []

module _ {S : Type 0} (attempt : ManagerCall → Action S Unit) where
  -- these calls returned nil, one after the other
  pub data Performed : List (ManagerCall × String) → S → S → Type 0 where
    none_left : {s t : S} → s ≡ t → Performed [] s t
    then_ :
        {call : ManagerCall} {message : String} {steps : List (ManagerCall × String)} {s t u : S}
        → attempt call s ≡ (ok tt, t)
        → Performed steps t u
        → Performed ((call, message) ∷ steps) s u

  -- the first steps returned nil, the next failed with an error, and nothing was called after it
  pub record StopsAt (steps : List (ManagerCall × String)) (message : String) (s u : S)
      : Type 0 where
    pub performed : List (ManagerCall × String)
    pub call : ManagerCall
    pub unperformed : List (ManagerCall × String)
    pub splits : steps ≡ performed ++ (call, message) ∷ unperformed
    pub middle : S
    pub ran : Performed performed s middle
    pub error : Error
    pub failed : attempt call middle ≡ (err error, u)

  -- a list of steps, run one after the other up to the first that fails
  run_steps : List (ManagerCall × String) → Action S Exit
  run_steps [] = pure returned
  run_steps ((call, message) ∷ steps) =
      let rest = run_steps steps in handle (attempt call) (λ e. pure (exited message)) (λ _. rest)

  main-run_steps : (flags : Flags) (s : S) → main attempt flags s ≡ run_steps (setup_steps flags) s
  unfolding main run_steps
  main-run_steps flags s = refl

  run_steps-Performed :
      (steps : List (ManagerCall × String)) (s u : S)
      → run_steps steps s ≡ (ok returned, u)
      → Performed steps s u
  unfolding run_steps handle
  run_steps-Performed [] s u e = none_left (ap (λ (p : Result Exit × S). p.1) e)
  run_steps-Performed ((call, message) ∷ steps) s u e = elim (Result-cases (attempt call s).0) [
    | inl (_, got) ↦
        then_ (ground (arith, got))
          (run_steps-Performed steps (attempt call s).1 u (ground (arith, got, e)))
    | inr (inl (x, got)) ↦ ground (arith, got, e)
    | inr (inr (m, got)) ↦ ground (arith, got, e)
  ]

  StopsAt-cons :
      (call : ManagerCall) (message : String) {steps : List (ManagerCall × String)} {last : String}
      {s t u : S}
      → attempt call s ≡ (ok tt, t)
      → StopsAt steps last t u
      → StopsAt ((call, message) ∷ steps) last s u
  StopsAt-cons call message first p = record {
    performed = (call, message) ∷ p.performed;
    call = p.call;
    unperformed = p.unperformed;
    splits = ap (◌∷◌ (call, message)) p.splits;
    middle = p.middle;
    ran = then_ first p.ran;
    error = p.error;
    failed = p.failed;
  }

  run_steps-StopsAt :
      (steps : List (ManagerCall × String)) (last : String) (s u : S)
      → run_steps steps s ≡ (ok (exited last), u)
      → StopsAt steps last s u
  unfolding run_steps handle
  run_steps-StopsAt [] last s u e = cc e
  run_steps-StopsAt ((call, message) ∷ steps) last s u e = elim (Result-cases (attempt call s).0) [
    | inl (_, got) ↦
        StopsAt-cons call message (ground (arith, got))
          (run_steps-StopsAt steps last (attempt call s).1 u (ground (arith, got, e)))
    | inr (inl (x, got)) ↦ record {
      performed = [];
      call = call;
      unperformed = steps;
      splits = ground (arith, got, e);
      middle = s;
      ran = none_left refl;
      error = x;
      failed = ground (arith, got, e);
    }
    | inr (inr (m, got)) ↦ ground (arith, got, e)
  ]

  main_ends :
      (steps : List (ManagerCall × String)) (exit : Exit) (s u : S)
      → run_steps steps s ≡ (ok exit, u)
      → ((exit ≡ returned) × Performed steps s u)
        ⊎ ((message : String) × (exit ≡ exited message) × StopsAt steps message s u)
  main_ends steps returned s u e = inl (refl, run_steps-Performed steps s u e)
  main_ends steps (exited message) s u e =
      inr (message, refl, run_steps-StopsAt steps message s u e)

  -- Either every call of the set-up returned nil, in the order of the list, and main returns after
  -- the manager has stopped; or the process exits with the message of the first call that failed,
  -- and makes no call after it.
  pub main-Performed-or-StopsAt :
      (flags : Flags) (exit : Exit) (s u : S)
      → main attempt flags s ≡ (ok exit, u)
      → ((exit ≡ returned) × Performed (setup_steps flags) s u)
        ⊎ ((message : String) × (exit ≡ exited message) × StopsAt (setup_steps flags) message s u)
  main-Performed-or-StopsAt flags exit s u e =
      main_ends (setup_steps flags) exit s u (sym (main-run_steps flags s) ∙ e)
