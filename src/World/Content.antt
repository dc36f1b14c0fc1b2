-- ===== src/World/Content.antt =====
-- What a file holds after calls that write none.
use k4all_operator.Base.{◌≡◌, ◌∙◌, String, Option}
use k4all_operator.Base.Keeps.{Keeps}
use k4all_operator.World.{Env, Program, perform}
use k4all_operator.World.Emits.{Origin, Since, here}
use k4all_operator.World.FileSystem.{IsFileSystem, IsHost, LeavesFiles}
use k4all_operator.World.Requests.{Request, Sys}

module _ (E : Env) (F : IsFileSystem E) (H : IsHost E F) (path : String) where
  -- the file holds this
  abbrev pub Content : Option String → Sys E.State E.Unstructured → Type 0
  Content held s = F.content s.state path ≡ held

  -- From calls that write no file, the file is as it was.
  pub Keeps-Content :
      {A : Type 0} (P : Request E.Unstructured → Type 0) (held : Option String) (m : Program E A)
      → ((q : Request E.Unstructured) → P q → LeavesFiles q)
      → ((old : Origin E P) → Keeps (Since P old) m)
      → Keeps (Content held) m
  Keeps-Content P held m leaves k = record {
    at = λ s h.
        ((k (record {
          trace = s.trace;
          holds = Content held;
          kept = λ q t allowed c. H.content-left q path t.state (leaves q allowed) ∙ c;
          kept_clock = λ t c. H.content-clock path t.state ∙ c;
          kept_elapse = λ n t c. H.content-elapse n path t.state ∙ c;
        })).at
          s (here, h)).1;
  }

  pub perform-Content :
      (held : Option String) (q : Request E.Unstructured)
      → LeavesFiles q
      → Keeps (Content held) (perform E q)
  unfolding perform
  perform-Content held q leaves = record { at = λ s h. H.content-left q path s.state leaves ∙ h }
