-- ===== src/JobRunner/Commands/Sections.antt =====
-- What the callback of a command collects of a log.
use text.Mathlib.TextLemmas.{append_assoc}
use k4all_operator.Base.{ℕ, ◌+◌, ◌<◌, String, ◌<>◌, ◌≡◌, sym, ap, ◌∙◌, some, true, arith}
use k4all_operator.Base.Effect.{ok}
use k4all_operator.Base.Text.{trim_space}
use k4all_operator.JobRunner.Commands.{
  Buffers, Markers, index_from, size, slice, append_sections, cut, collect_output,
}
use k4all_operator.JobRunner.Commands.Positions.{
  starts_not_in, starts_not_in-StartsNotIn, index_from-append, size-append, take_chars-append,
  drop_chars-append,
}

slice_between : (a b c : String) → slice (size a) (size (a <> b)) ((a <> b) <> c) ≡ ok b
unfolding slice
slice_between a b c =
    ground (arith, size-append a b, take_chars-append (a <> b) c, drop_chars-append a b)

module _ (m : Markers) (before out err after : String) where
  -- the log up to the output, to the marker of the errors, to the errors, and to the last marker
  abbrev pub to_output : String
  to_output = before <> (m.output_marker <> "\n")

  abbrev pub to_error_marker : String
  to_error_marker = to_output <> out

  abbrev pub to_errors : String
  to_errors = to_error_marker <> (m.error_marker <> "\n")

  abbrev pub to_end_marker : String
  to_end_marker = to_errors <> err

  abbrev pub log : String
  log = to_end_marker <> (m.end_marker <> after)

  abbrev after_errors : String
  after_errors = "\n" <> (err <> (m.end_marker <> after))

  abbrev after_output : String
  after_output = "\n" <> (out <> (m.error_marker <> after_errors))

  -- each marker starts nowhere before its own place
  pub record InOrder : Type 0 where
    pub output_first : starts_not_in m.output_marker before (m.output_marker <> after_output) ≡ true
    pub error_first :
        starts_not_in m.error_marker to_error_marker (m.error_marker <> after_errors) ≡ true
    pub end_first : starts_not_in m.end_marker to_end_marker (m.end_marker <> after) ≡ true

  log_at_output : log ≡ before <> (m.output_marker <> after_output)
  log_at_output = simp append_assoc

  log_at_error : log ≡ to_error_marker <> (m.error_marker <> after_errors)
  log_at_error = simp append_assoc

  size_line : (s marker : String) → size (s <> (marker <> "\n")) ≡ size s + size marker + 1
  unfolding size
  size_line s marker = omega (arith, size-append s (marker <> "\n"), size-append marker "\n")

  output_slice : slice (size before + size m.output_marker + 1) (size to_error_marker) log ≡ ok out
  output_slice =
      ap (λ (n : ℕ). slice n (size to_error_marker) log) (sym (size_line before m.output_marker))
      ∙ ap (λ (s : String). slice (size to_output) (size to_error_marker) s) log_at_error
      ∙ slice_between to_output out (m.error_marker <> after_errors)

  error_slice :
      slice (size to_error_marker + size m.error_marker + 1) (size to_end_marker) log ≡ ok err
  error_slice =
      ap (λ (n : ℕ). slice n (size to_end_marker) log)
        (sym (size_line to_error_marker m.error_marker))
      ∙ slice_between to_errors err (m.end_marker <> after)

  in_order : (size before < size to_error_marker) × (size to_error_marker < size to_end_marker)
  in_order = omega (
    arith,
    size_line before m.output_marker,
    size-append to_output out,
    size_line to_error_marker m.error_marker,
    size-append to_errors err,
  )

  cut_between :
      (b : Buffers)
      → cut m log (some (size before)) (some (size to_error_marker)) (some (size to_end_marker)) b
        ≡ ok (record {
          output = b.output <> trim_space out;
          error_output = b.error_output <> trim_space err;
        })
  unfolding cut append_sections
  cut_between b = ground (arith, output_slice, error_slice, in_order)

  -- Where each marker starts nowhere before its own place, the callback appends to its buffers what
  -- stands between the markers of a log, without the space around it, whatever stands before the
  -- first marker and after the last.
  pub collect_output-sections :
      (pod container : String) (b : Buffers)
      → InOrder
      → collect_output m pod container log b
        ≡ ok (record {
          output = b.output <> trim_space out;
          error_output = b.error_output <> trim_space err;
        })
  unfolding collect_output
  collect_output-sections pod container b o =
      let first : index_from 0 log m.output_marker ≡ some (size before) =
        ap (λ (s : String). index_from 0 s m.output_marker) log_at_output
        ∙ index_from-append before m.output_marker after_output
            (starts_not_in-StartsNotIn _ _ _ o.output_first) in
      let second : index_from 0 log m.error_marker ≡ some (size to_error_marker) =
        ap (λ (s : String). index_from 0 s m.error_marker) log_at_error
        ∙ index_from-append to_error_marker m.error_marker after_errors
            (starts_not_in-StartsNotIn _ _ _ o.error_first) in
      let third : index_from 0 log m.end_marker ≡ some (size to_end_marker) =
        index_from-append to_end_marker m.end_marker after
          (starts_not_in-StartsNotIn _ _ _ o.end_first) in
      rw (first, second, third) (cut_between b)
