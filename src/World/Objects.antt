-- ===== src/World/Objects.antt =====
-- The Kubernetes objects that the operator reads and writes, with the fields that it uses. What the
-- source handles as `unstructured.Unstructured` is an abstract type `U`.
use k4all_operator.Base.{ℕ, String, Bool, Option, List}
use k4all_operator.Base.Dict.{Dict}
use k4all_operator.V1alpha1.{ClusterConfig}

-- types.NamespacedName, client.ObjectKey; the namespace is "" for what has none
pub record NamespacedName : Type 0 where
  pub name : String
  pub namespace_ : String

-- schema.GroupVersionKind
pub record Gvk : Type 0 where
  pub group : String
  pub version : String
  pub kind : String

pub record ConfigMap : Type 0 where
  pub name : String
  pub namespace_ : String
  pub entries : Option (Dict String)  -- Data, a map that may be nil

pub record Namespace : Type 0 where
  pub name : String

pub record EnvVar : Type 0 where
  pub name : String
  pub value : String
  pub field_path : String  -- ValueFrom.FieldRef.FieldPath, "" where there is none

pub record VolumeMount : Type 0 where
  pub name : String
  pub mount_path : String

pub record Volume : Type 0 where
  pub name : String
  pub host_path : String
  pub host_path_type : Option String

pub record Toleration : Type 0 where
  pub key : String
  pub operator : String
  pub effect : String

pub record Container : Type 0 where
  pub name : String
  pub image : String
  pub command : List String
  pub env : List EnvVar
  pub volume_mounts : List VolumeMount
  pub privileged : Option Bool

-- A pod template. Every pod that the operator describes has exactly one container.
pub record PodTemplate : Type 0 where
  pub labels : Dict String
  pub annotations : Option (Dict String)
  pub service_account_name : String
  pub host_network : Bool
  pub host_ipc : Bool
  pub host_pid : Bool
  pub hostname : String
  pub container : Container
  pub volumes : List Volume
  pub tolerations : List Toleration
  pub restart_policy : String

pub record JobCondition : Type 0 where
  pub type : String
  pub status : String
  pub reason : String

pub record Job : Type 0 where
  pub name : String
  pub namespace_ : String
  pub labels : Dict String
  pub template : PodTemplate
  pub backoff_limit : ℕ
  pub active : ℕ  -- Status.Active
  pub conditions : List JobCondition  -- Status.Conditions

pub record Pod : Type 0 where
  pub name : String
  pub namespace_ : String
  pub containers : List String  -- the names

pub record DaemonSet : Type 0 where
  pub name : String
  pub namespace_ : String
  pub match_labels : Dict String
  pub template : PodTemplate
  pub number_ready : ℕ
  pub desired_number_scheduled : ℕ

pub record Node : Type 0 where
  pub name : String
  pub labels : Option (Dict String)

pub data Kind : Type 0 where
  cluster_config config_map namespace_ job pod daemon_set : Kind
  custom : Gvk → Kind

abbrev pub Obj : Type 0 → Kind → Type 0
Obj U Kind.cluster_config = ClusterConfig
Obj U Kind.config_map = ConfigMap
Obj U Kind.namespace_ = Namespace
Obj U Kind.job = Job
Obj U Kind.pod = Pod
Obj U Kind.daemon_set = DaemonSet
Obj U (Kind.custom _) = U
