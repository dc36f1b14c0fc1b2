-- ===== src/Controller/Annotations.antt =====
-- The annotations that track the synchronisation (clusterconfig_controller.go), and the result of
-- a reconciliation.
use k4all_operator.Base.{
  ℕ, String, Option, none, some, Bool, true, false, [], ◌≡◌, ◌==◌, if◌then◌else◌,
}
use k4all_operator.Base.Dict.{Dict, lookup, insert, lookup-nil, lookup-insert}
use k4all_operator.Base.Decimal.{parse_int}
use k4all_operator.Base.Effect.{Error, is_not_found}
use k4all_operator.Base.Int.{ℤ}
use k4all_operator.World.Objects.{NamespacedName}

abbrev pub file_sync_annotation : String
file_sync_annotation = "k4all.magesgate.com/file-sync"

abbrev pub last_update_annotation : String
last_update_annotation = "k4all.magesgate.com/last-update"

abbrev pub cluster_config_name : NamespacedName
cluster_config_name = record { name = "k4all-cluster-config"; namespace_ = "k4all-operator-system" }

-- A lookup in a map that may be nil.
unfoldable pub annotation : String → Option (Dict String) → Option String
annotation key none = none
annotation key (some d) = lookup key d

-- The annotations, made if nil, with the two tracking annotations set.
unfoldable pub track : String → String → Option (Dict String) → Dict String
track sync time none = insert last_update_annotation time (insert file_sync_annotation sync [])
track sync time (some d) = insert last_update_annotation time (insert file_sync_annotation sync d)

-- Whether the resource has a readable time of its last update for which the test holds.
unfoldable pub last_update_test : (ℤ → Bool) → Option (Dict String) → Bool
unfolding annotation
last_update_test test annotations = elim (annotation last_update_annotation annotations) [
  | none ↦ false
  | some text ↦ elim (parse_int text) [ none ↦ false | some time ↦ test time ]
]

-- ctrl.Result, its RequeueAfter in seconds, beside the error returned.
pub record Outcome : Type 0 where
  pub requeue_after : ℕ
  pub error : Option Error

abbrev pub finished : Outcome
finished = record { requeue_after = 0; error = none }

abbrev pub failing : ℕ → Error → Outcome
failing seconds e = record { requeue_after = seconds; error = some e }

-- client.IgnoreNotFound
unfoldable pub ignore_not_found : Error → Option Error
ignore_not_found e = elim (is_not_found e) [ true ↦ none | false ↦ some e ]

-- Tracking sets the two annotations, and keeps every other.
pub annotation-track :
    (key sync time : String) (a : Option (Dict String))
    → annotation key (some (track sync time a)) ≡ (
        if last_update_annotation == key
        then some time
        else if file_sync_annotation == key
        then some sync
        else annotation key a)
unfolding annotation track
annotation-track key sync time none = simp (lookup-insert, lookup-nil)
annotation-track key sync time (some d) = simp lookup-insert
