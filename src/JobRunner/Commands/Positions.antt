-- ===== src/JobRunner/Commands/Positions.antt =====
-- Positions in a text: the first place of a marker, and the parts before and after a position.
use text.Mathlib.TextLemmas.{nil-append, cons-append}
use k4all_operator.Base.{
  ℕ, suc, ◌+◌, String, ◌<>◌, ◌≡◌, refl, ap, ◌∙◌, some, Bool, true, false, not, ◌&&◌, arith, eq_iff,
}
use k4all_operator.JobRunner.Build.{has_prefix}
use k4all_operator.JobRunner.Commands.{index_from, size, take_chars, drop_chars}

-- In `before <> after`, the marker does not start at a position within `before`.
abbrev pub StartsNotIn : String → String → String → Type 0
StartsNotIn marker String.[] after = Unit
StartsNotIn marker (String.◌∷◌ c before) after =
    (has_prefix (String.◌∷◌ c (before <> after)) marker ≡ false) × StartsNotIn marker before after

-- The same as a test.
unfoldable pub starts_not_in : String → String → String → Bool
unfolding has_prefix
starts_not_in marker String.[] after = true
starts_not_in marker (String.◌∷◌ c before) after =
    not (has_prefix (String.◌∷◌ c (before <> after)) marker) && starts_not_in marker before after

pub starts_not_in-StartsNotIn :
    (marker before after : String)
    → starts_not_in marker before after ≡ true
    → StartsNotIn marker before after
unfolding starts_not_in
starts_not_in-StartsNotIn marker String.[] after h = tt
starts_not_in-StartsNotIn marker (String.◌∷◌ c before) after h =
    (ground (arith, h), starts_not_in-StartsNotIn marker before after (ground (arith, h)))

pub has_prefix-append : (marker after : String) → has_prefix (marker <> after) marker ≡ true
unfolding has_prefix
has_prefix-append String.[] after = refl
has_prefix-append (String.◌∷◌ c marker) after =
    rw cons-append
      (ground (arith, eq_iff (String.◌∷◌ c "") (String.◌∷◌ c ""), has_prefix-append marker after))

index_from-here :
    (n : ℕ) (s marker : String) → has_prefix s marker ≡ true → index_from n s marker ≡ some n
unfolding index_from
index_from-here n String.[] marker h = ground (arith, h)
index_from-here n (String.◌∷◌ c s) marker h = ground (arith, h)

index_from-before :
    (n : ℕ) (before s marker : String)
    → StartsNotIn marker before s
    → has_prefix s marker ≡ true
    → index_from n (before <> s) marker ≡ some (n + size before)
unfolding index_from size
index_from-before n String.[] s marker h p =
    rw nil-append (index_from-here n s marker p ∙ ap some (omega arith))
index_from-before n (String.◌∷◌ c before) s marker h p =
    rw cons-append (ground (arith, h.0, index_from-before (suc n) before s marker h.1 p))

-- The first place of a marker.
pub index_from-append :
    (before marker after : String)
    → StartsNotIn marker before (marker <> after)
    → index_from 0 (before <> (marker <> after)) marker ≡ some (size before)
index_from-append before marker after h =
    index_from-before 0 before (marker <> after) marker h (has_prefix-append marker after)
    ∙ ap some (omega arith)

pub size-append : (s t : String) → size (s <> t) ≡ size s + size t
unfolding size
size-append String.[] t = rw nil-append (omega arith)
size-append (String.◌∷◌ c s) t = rw cons-append (omega (arith, size-append s t))

pub take_chars-append : (s t : String) → take_chars (size s) (s <> t) ≡ s
unfolding take_chars size
take_chars-append String.[] t = refl
take_chars-append (String.◌∷◌ c s) t = rw cons-append (ap (String.◌∷◌ c) (take_chars-append s t))

pub drop_chars-append : (s t : String) → drop_chars (size s) (s <> t) ≡ t
unfolding drop_chars size
drop_chars-append String.[] t = rw nil-append
drop_chars-append (String.◌∷◌ c s) t = rw cons-append (drop_chars-append s t)
