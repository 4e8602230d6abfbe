-- ===== src/TaskGroup/Hidden.antt =====
-- What a block raises that was cancelled because one of its tasks failed.
use edgedb_python.Prelude.{
  ◌≡◌, ◌≢◌, refl, ap, ◌∙◌, ◌==◌, nat_eq, Bool, true, false, not, ◌&&◌, ◌||◌, [], none, some, arith,
  inl, inr, List-cases,
}
use edgedb_python.TaskGroup.{
  cancelled_error, ended, raises, raises_group, Frame, Store, note_base, is_base_error,
}
use edgedb_python.TaskGroup.Exit.{
  aexit, own_cancel, take_back, abort_once, wait_or_end, conclude, is_cancelled, all_errors,
}

-- The parent is no longer marked as cancelled.
abbrev unmarked : Store → Store
unmarked s = record s { parent = record s.parent { cancel_requested = false } }

-- The cancellation is the group's own: it is not passed on.
abbrev own_frame : Frame
own_frame = record { propagate_cancelation = false; exc = some cancelled_error }

module _ (b : Bool) where
  own : (s : Store) → s.parent_cancel_requested ≡ true → own_cancel b cancelled_error s ≡ true
  unfolding own_cancel is_cancelled
  own s asked = rw asked refl

  taken_back :
      (s : Store) → s.parent_cancel_requested ≡ true → take_back b cancelled_error s ≡ unmarked s
  unfolding take_back
  taken_back s asked = rw (own s asked, take_back) refl

  once : (s : Store) → s.aborting ≡ true → abort_once b s ≡ s
  unfolding abort_once
  once s aborting = rw (aborting, abort_once) refl

  ends_now : (f : Frame) (s : Store) → s.unfinished_tasks ≡ 0 → wait_or_end b f s ≡ conclude b f s
  unfolding wait_or_end
  ends_now f s z =
      let now : (s.unfinished_tasks == 0) ≡ true = ground (arith, z) in rw (now, wait_or_end) refl

  not_passed_on :
      (s : Store)
      → s.parent_cancel_requested ≡ true
      → s.aborting ≡ true
      → (is_cancelled b (some cancelled_error)
          && (not s.aborting || not (own_cancel b cancelled_error s)))
        ≡ false
  unfolding is_cancelled
  not_passed_on s asked aborting = rw (own s asked, aborting) refl

  -- The end of a block whose exception has been noted
  concluded :
      (s : Store)
      → s.parent_cancel_requested ≡ true
      → s.aborting ≡ true
      → s.unfinished_tasks ≡ 0
      → wait_or_end b
          (record {
            propagate_cancelation =
                is_cancelled b (some cancelled_error)
                && (not s.aborting || not (own_cancel b cancelled_error s));
            exc = some cancelled_error;
          })
          (abort_once b (take_back b cancelled_error s))
        ≡ conclude b own_frame (unmarked s)
  concluded s asked aborting z =
      ap
        (λ p.
          wait_or_end b (record { propagate_cancelation = p; exc = some cancelled_error })
            (abort_once b (take_back b cancelled_error s)))
        (not_passed_on s asked aborting)
      ∙ ap (λ t. wait_or_end b own_frame (abort_once b t)) (taken_back s asked)
      ∙ ap (wait_or_end b own_frame) (once (unmarked s) aborting)
      ∙ ends_now own_frame (unmarked s) z

noted_base :
    (s : Store)
    → s.base_error ≡ none
    → note_base true cancelled_error s ≡ record s { base_error = some cancelled_error }
unfolding note_base is_base_error
noted_base s e = rw (e, note_base) refl

noted_none : (s : Store) → s.base_error ≡ none → note_base false cancelled_error s ≡ s
unfolding note_base is_base_error
noted_none s e = simp (e, note_base)

-- The noted exception is raised.
raises_base :
    (s : Store)
    → (conclude true own_frame (record s { base_error = some cancelled_error })).stage
      ≡ ended (raises cancelled_error)
unfolding conclude
raises_base s = refl

raises_errors :
    (s : Store)
    → s.base_error ≡ none
    → s.errors ≢ []
    → (conclude false own_frame s).stage ≡ ended (raises_group s.errors)
unfolding conclude all_errors is_cancelled
raises_errors s no_base some_error = elim (List-cases s.errors) [
  | inl e ↦ absurd (some_error e)
  | inr (x, xs, e) ↦ rw (no_base, conclude) (rw e refl)
]

-- A block in which no task is left, and which was cancelled by the group itself because of the
-- exceptions that it has collected, raises `CancelledError` where that is a `BaseException`, as it is
-- since Python 3.8, and the group of these exceptions where it is not.
pub errors_are_hidden :
    (s : Store)
    → s.unfinished_tasks ≡ 0
    → s.base_error ≡ none
    → s.parent_cancel_requested ≡ true
    → s.aborting ≡ true
    → s.errors ≢ []
    → ((aexit true (some cancelled_error) s).stage ≡ ended (raises cancelled_error))
      × ((aexit false (some cancelled_error) s).stage ≡ ended (raises_group s.errors))
unfolding aexit
errors_are_hidden s z no_base asked aborting some_error =
    let s' : Store = record s { exiting = true } in
    let based : Store = record s' { base_error = some cancelled_error } in
    let end_of = λ (b : Bool) (t : Store).
      (wait_or_end b
        (record {
          propagate_cancelation =
              is_cancelled b (some cancelled_error)
              && (not t.aborting || not (own_cancel b cancelled_error t));
          exc = some cancelled_error;
        })
        (abort_once b (take_back b cancelled_error t))).stage in
    (
      ap (end_of true) (noted_base s' no_base)
          ∙ ap (λ t. t.stage) (concluded true based asked aborting z)
          ∙ raises_base (unmarked s'),
      ap (end_of false) (noted_none s' no_base)
          ∙ ap (λ t. t.stage) (concluded false s' asked aborting z)
          ∙ raises_errors (unmarked s') no_base some_error,
    )
