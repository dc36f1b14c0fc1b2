-- ===== src/World/Requests.antt =====
-- Every call of the program that leaves it, to the API server, the host's file system and the
-- network, and the record of the calls made.
use k4all_operator.Base.{ℕ, String, Bool, List}
use k4all_operator.Base.Int.{ℤ}
use k4all_operator.World.Objects.{NamespacedName, Gvk, Kind, Obj, Node, Pod}

pub data Request (U : Type 0) : Type 0 where
  -- the Kubernetes client
  get_object : Kind → NamespacedName → Request U
  create_object : (k : Kind) → Obj U k → Request U
  update_object : (k : Kind) → Obj U k → Request U
  delete_object : Kind → NamespacedName → Request U
  patch_object : Gvk → NamespacedName → String → Request U
  list_nodes : Request U
  list_pods : String → String → Request U
  list_custom : Gvk → Request U
  pod_logs : String → String → String → Request U
  -- os
  stat_file : String → Request U
  read_file : String → Request U
  write_file : String → String → Request U
  mkdir_all : String → Request U
  rename_file : String → String → Request U
  chmod_file : String → ℕ → Request U
  -- net/http
  http_get : String → Request U

pub record FileInfo : Type 0 where
  pub size : ℕ
  pub mod_time : ℤ
  pub perm : ℕ

pub record HttpResponse (B : Type 0) : Type 0 where
  pub status_code : ℕ
  pub body : B

abbrev pub Response : (U B : Type 0) → Request U → Type 0
Response U B (get_object k _) = Obj U k
Response U B list_nodes = List Node
Response U B (list_pods _ _) = List Pod
Response U B (pod_logs _ _ _) = String
Response U B (stat_file _) = FileInfo
Response U B (read_file _) = String
Response U B (http_get _) = HttpResponse B
Response U B _ = Unit

-- A call made, and whether it failed.
pub record Event (U : Type 0) : Type 0 where
  pub request : Request U
  pub failed : Bool

-- The outside world, and the calls made so far, the last first.
pub record Sys (S U : Type 0) : Type 0 where
  pub state : S
  pub trace : List (Event U)
