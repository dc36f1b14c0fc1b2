-- ===== src/World/Emits/Traces.antt =====
-- Traces that extend one another by allowed calls.
use k4all_operator.Base.{List, ◌∷◌}
use k4all_operator.World.Requests.{Request, Event}

-- The second trace extends the first by allowed calls only.
pub data Emitted {U : Type 0} (P : Request U → Type 0) (old : List (Event U))
    : List (Event U) → Type 0 where
  here : Emitted P old old
  more :
      {new : List (Event U)} (e : Event U)
      → P e.request
      → Emitted P old new
      → Emitted P old (e ∷ new)

pub Emitted-trans :
    {U : Type 0} {P : Request U → Type 0} {a b c : List (Event U)}
    → Emitted P a b
    → Emitted P b c
    → Emitted P a c
Emitted-trans p here = p
Emitted-trans p (more e allowed q) = more e allowed (Emitted-trans p q)

pub Emitted-weaken :
    {U : Type 0} {P Q : Request U → Type 0} {a b : List (Event U)}
    → ((r : Request U) → P r → Q r)
    → Emitted P a b
    → Emitted Q a b
Emitted-weaken w here = here
Emitted-weaken w (more e allowed p) = more e (w e.request allowed) (Emitted-weaken w p)

-- Calls that change neither the cluster nor the host.
abbrev pub IsRead : {U : Type 0} → Request U → Type 0
IsRead (Request.get_object _ _) = Unit
IsRead Request.list_nodes = Unit
IsRead (Request.list_pods _ _) = Unit
IsRead (Request.list_custom _) = Unit
IsRead (Request.pod_logs _ _ _) = Unit
IsRead (Request.stat_file _) = Unit
IsRead (Request.read_file _) = Unit
IsRead (Request.http_get _) = Unit
IsRead _ = ⊥

-- Any call.
abbrev pub Anything : {U : Type 0} → Request U → Type 0
Anything _ = Unit
