-- ===== src/World/FileSystem.antt =====
-- What the program relies on of the host's file system, seen as the content of each file, while
-- no other process writes to it.
use k4all_operator.Base.{ℕ, String, ◌≡◌, ◌≢◌, Option, some}
use k4all_operator.Base.Effect.{ok}
use k4all_operator.World.{Env}
use k4all_operator.World.Requests.{Request, read_file, write_file, mkdir_all, rename_file}

pub record IsFileSystem (E : Env) : Type 0 where
  pub content : E.State → String → Option String
  pub read-ok :
      (p c : String) (st : E.State) → content st p ≡ some c → (E.respond (read_file p) st).0 ≡ ok c
  pub content-read :
      (p q : String) (st : E.State) → content (E.respond (read_file p) st).1 q ≡ content st q
  pub content-mkdir :
      (p q : String) (st : E.State) → content (E.respond (mkdir_all p) st).1 q ≡ content st q
  -- a write that fails may leave anything in its file, and nothing in another
  pub content-write :
      (p c : String) (st : E.State)
      → (E.respond (write_file p c) st).0 ≡ ok tt
      → content (E.respond (write_file p c) st).1 p ≡ some c
  pub content-write_ne :
      (p c q : String) (st : E.State)
      → p ≢ q
      → content (E.respond (write_file p c) st).1 q ≡ content st q
  -- a rename happens as a whole or not at all
  pub content-rename :
      (a b : String) (st : E.State)
      → (E.respond (rename_file a b) st).0 ≡ ok tt
      → content (E.respond (rename_file a b) st).1 b ≡ content st a
  pub content-rename_ne :
      (a b q : String) (st : E.State)
      → a ≢ q
      → b ≢ q
      → content (E.respond (rename_file a b) st).1 q ≡ content st q
  pub content-rename_failed :
      (a b q : String) (st : E.State)
      → (E.respond (rename_file a b) st).0 ≢ ok tt
      → content (E.respond (rename_file a b) st).1 q ≡ content st q

-- Calls that write no file. The cluster's API is no way to the host's files.
abbrev pub LeavesFiles : {U : Type 0} → Request U → Type 0
LeavesFiles (Request.write_file _ _) = ⊥
LeavesFiles (Request.rename_file _ _) = ⊥
LeavesFiles _ = Unit

-- Such calls, and waiting, leave the files as they are, while no other process, such as the one of
-- a job, writes to them.
pub record IsHost (E : Env) (F : IsFileSystem E) : Type 0 where
  pub content-left :
      (q : Request E.Unstructured) (p : String) (st : E.State)
      → LeavesFiles q
      → F.content (E.respond q st).1 p ≡ F.content st p
  pub content-clock : (p : String) (st : E.State) → F.content (E.clock st).1 p ≡ F.content st p
  pub content-elapse :
      (n : ℕ) (p : String) (st : E.State) → F.content (E.elapse n st) p ≡ F.content st p
