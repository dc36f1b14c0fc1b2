-- ===== src/Lib.antt =====
-- A model of k4all-operator, a Kubernetes operator that keeps the configuration file of a k4all
-- host and the cluster's `ClusterConfig` resource in step, and installs and removes features.
--
-- The parts, and how they interact:
--   V1alpha1          api/v1alpha1/clusterconfig_types.go, the resource
--   Config            internal/controller/config: the file's structure (Types), its mapping to a
--                     spec (Parser) and back (Writer), the conversion of convert.go (Convert), and
--                     the functions that read and write the file (Files)
--   Controller        internal/controller: Annotations and ClusterConfigReconciler
--                     (clusterconfig_controller.go), FileToCluster (clusterconfig_sync.go,
--                     feature_manager.go), ClusterToFile (clusterconfig_sync_bidirectional.go),
--                     ConfigSyncer (feature_controller.go), Values (GetValues and SaveValues of
--                     virt_controller.go and argocd_controller.go)
--   Downloader        internal/controller/downloader/downloader.go: versions, the application and
--                     the deletion of manifests, the wait for KubeVirt
--   JobRunner         internal/controller/jobrunner/jobrunner.go: the job of a configuration (Build),
--                     its creation and clean-up (Run), the wait for it (Wait), the scripts,
--                     RunHelmCommand and RunHostCommand (Commands)
--   FeatureScripts    internal/controller/feature_script_runner.go: the jobs that run a feature's script
--   Virt              internal/controller/virt_controller.go: the virtualisation feature
--   Argocd            internal/controller/argocd_controller.go: the installation of Argo CD by helm;
--                     what a run has done (Outcomes), what it may call (Calls) and what
--                     it leaves alone (Content, Apart)
--   Main              cmd/main.go: the flags, the set-up of the parts and the exit
--   System            the parts together: from the resource to the features (Follow), what the
--                     features leave to one another (Apart), the event filters and what they let through (Filter),
--                     and the parts one after the other in any order (Steps)
-- The reconciler of `ClusterConfig` moves the spec between the resource and the file, and ends with
-- the syncer, which copies the file into a ConfigMap. The features' reconcilers react to that
-- ConfigMap. Functions keep their names in snake_case; a function that is long in the source is
-- split at its branches, and the parts are named for what they do.
--
-- The outside (World): every call of the API server, the host's files and the network is a
-- `Request`, and `Env` says what it answers from any state. An action (Base.Effect) is a function
-- of the state to a result, which is a value, an `error` or a panic, and the state after it; the
-- calls made are kept in a trace. Go's libraries are fields of `Env`: the codecs, the objects of
-- apimachinery, `wait.PollUntilContextTimeout`, the clock. What a theorem needs of them is a record
-- of laws: World.FileSystem, World.Codec, World.ConfigMaps, World.KubeVirt, World.Polling. The
-- client of cmd/main.go is the manager's, which reads from a cache: a read of a ConfigMap is taken
-- to give what is stored only in a state where the cache has its last version (`current`), and a
-- theorem that needs it says so of each state from which it is needed. What a run was and did is
-- said of the states that it went through: World.Emits.Course leads from one to the next. Logging
-- is left out, contexts are never cancelled but where a loop waits for it, and HTTP bodies are read
-- by the functions of `Env`. Maps are association lists (Base.Dict); a map that may be nil is an
-- option. The callback of a job changes a value that is passed along with the map of callbacks.
--
-- Numbers that come from outside (Unix times, replicas) are integers of any size, and the text of
-- a time is read as an int64. The loops over a YAML decoder run on fuel, which a caller passes on;
-- one step more than there are documents is enough. The wait for KubeVirt takes the number of the
-- ticks that come before its timeout, and the syncer's loop the list of what wakes it.
--
-- The positions in a job's log are counted in characters and not in bytes, so the character after a
-- marker, which is skipped, is taken to be one byte long, like the line break that the scripts print.
--
-- Go leaves the order open in which a loop meets the entries of a map: the environment of a feature
-- script is given by its entries in that order, and what is proved holds of any order.
--
-- Not modelled: what controller-runtime does with the controllers that are registered but for their
-- event filters, the parsing of flags, and generated code.
pub mod Base
pub mod V1alpha1
pub mod Config
pub mod World
pub mod Downloader
pub mod JobRunner
pub mod FeatureScripts
pub mod Virt
pub mod Argocd
pub mod Controller
pub mod Main
pub mod System
pub mod Tests
