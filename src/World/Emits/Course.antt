-- ===== src/World/Emits/Course.antt =====
-- What a run went through, from one state to another.
use k4all_operator.Base.{ℕ}
use k4all_operator.World.{Env, called, looked, waited}
use k4all_operator.World.Requests.{Request, Sys}
use k4all_operator.World.Emits.{Origin}

-- The second state comes of the first by calls, looks at the clock and waits.
pub data Course (E : Env) (s : Sys E.State E.Unstructured)
    : Sys E.State E.Unstructured → Type 0 where
  arrived : Course E s s
  calls :
      {t : Sys E.State E.Unstructured} (r : Request E.Unstructured)
      → Course E s t
      → Course E s (called E r t)
  looks : {t : Sys E.State E.Unstructured} → Course E s t → Course E s (looked E t)
  waits : {t : Sys E.State E.Unstructured} (n : ℕ) → Course E s t → Course E s (waited E n t)

-- From this state along a course.
abbrev pub from_state :
    (E : Env) (P : Request E.Unstructured → Type 0) → Sys E.State E.Unstructured → Origin E P
from_state E P s = record {
  trace = s.trace;
  holds = Course E s;
  kept = λ r t h p. calls r p;
  kept_clock = λ t p. looks p;
  kept_elapse = λ n t p. waits n p;
}
