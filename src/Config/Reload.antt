-- ===== src/Config/Reload.antt =====
-- The configuration file written and read again, and the merge into an existing file.
use k4all_operator.Base.{String, ◌≡◌, some, arith}
use k4all_operator.Base.Effect.{Error, wrap, ok, err, ◌>>=◌, wrapping}
use k4all_operator.Config.Types.{Config}
use k4all_operator.Config.Files.{
  parse_config_file, write_cluster_config_to_file, read_config_and_update_k8s,
  merge_and_write_config,
}
use k4all_operator.Config.RoundTrip.{map_to-map_from, map_to-merge_configs}
use k4all_operator.Config.Atomic.{write_cluster_config_to_file_written}
use k4all_operator.V1alpha1.{ClusterConfig}
use k4all_operator.World.{Env, perform}
use k4all_operator.World.Requests.{Sys, read_file}
use k4all_operator.World.FileSystem.{IsFileSystem}
use k4all_operator.World.Codec.{IsCodec}

-- What a file that holds an encoded configuration is parsed to.
parse_config_file_of_content :
    (E : Env) (F : IsFileSystem E) (J : IsCodec E) (path text : String) (c : Config)
    (s : Sys E.State E.Unstructured)
    → E.marshal_indent c ≡ ok text
    → F.content s.state path ≡ some text
    → (parse_config_file E path s).0 ≡ ok c
unfolding parse_config_file ◌>>=◌ wrapping perform
parse_config_file_of_content E F J path text c s encoded held =
    ground (arith, F.read-ok path text s.state held, J.unmarshal-marshal_indent c text encoded)

module _ (E : Env) (path : String) (s : Sys E.State E.Unstructured) where
  -- A resource that was written to the file, without an error, is read back from it: whatever
  -- resource is then updated from the file gets the spec of the one that was written.
  pub read-write :
      (F : IsFileSystem E) (J : IsCodec E) (written reader : ClusterConfig)
      → (write_cluster_config_to_file E written path s).0 ≡ ok tt
      → (read_config_and_update_k8s E path reader
          (write_cluster_config_to_file E written path s).1).0
        ≡ ok (record reader { spec = written.spec })
  unfolding read_config_and_update_k8s ◌>>=◌
  read-write F J written reader done =
      let after = (write_cluster_config_to_file E written path s).1 in
      let (text, encoded, held) = write_cluster_config_to_file_written E F written path s done in
      let parsed = parse_config_file_of_content E F J path text _ after encoded held in
      ground (arith, parsed, map_to-map_from written.spec)

  -- If the file cannot be read, the merge returns the error and has done nothing else, also where
  -- the file does not exist.
  pub merge_and_write_config_unread :
      (k8s_config : ClusterConfig) (e : Error)
      → (E.respond (read_file path) s.state).0 ≡ err e
      → merge_and_write_config E path k8s_config s
        ≡ (err (wrap "failed to read config file" e), (perform E (read_file path) s).1)
  unfolding merge_and_write_config parse_config_file ◌>>=◌ wrapping perform
  merge_and_write_config_unread k8s_config e unread = ground arith

  -- If the file can be read and parsed, the merge writes the resource and nothing of the file.
  pub merge_and_write_config_parsed :
      (k8s_config : ClusterConfig) (file : Config)
      → (parse_config_file E path s).0 ≡ ok file
      → merge_and_write_config E path k8s_config s
        ≡ write_cluster_config_to_file E k8s_config path (parse_config_file E path s).1
  unfolding merge_and_write_config ◌>>=◌
  merge_and_write_config_parsed k8s_config file parsed =
      ground (arith, map_to-merge_configs file k8s_config.spec)
