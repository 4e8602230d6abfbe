-- ===== src/TaskGroup/Exit.antt =====
-- edgedb/_taskgroup.py: `__aexit__`, cut where it waits.
use edgedb_python.Prelude.{
  ◌||◌, ◌==◌, nat_eq, Bool, true, false, ◌&&◌, not, List, [], ◌∷◌, ◌++◌, Option, none, some,
  if◌then◌else◌,
}
use edgedb_python.TaskGroup.{
  Error, cancelled_error, pending, resolved, withdrawn, left, raises, raises_group, Frame, waiting,
  ended, Store, abort, note_base,
}

module _ (cancelled_is_base : Bool) where
  unfoldable pub is_cancelled : Option Error → Bool
  is_cancelled (some cancelled_error) = true
  is_cancelled _ = false

  unfoldable pub all_errors : Option Error → List Error → List Error
  unfolding is_cancelled
  all_errors none errors = errors
  all_errors (some e) errors = if is_cancelled (some e) then errors else errors ++ e ∷ []

  -- The end of `__aexit__`, after the loop
  unfoldable pub conclude : Frame → Store → Store
  unfolding all_errors
  conclude f s =
      let s' : Store = record s { on_completed_fut = none } in
      elim s.base_error [
        | some e ↦ record s' { stage = ended (raises e) }
        | none ↦
            if f.propagate_cancelation
            then record s' { stage = ended (raises cancelled_error) }
            else elim (all_errors f.exc s.errors) [
              | [] ↦ record s' { stage = ended left }
              | e ∷ es ↦ record s' { errors = e ∷ es; stage = ended (raises_group (e ∷ es)) }
            ]
      ]

  -- The test of the loop of `__aexit__`, and what it does up to where it waits
  unfoldable pub wait_or_end : Frame → Store → Store
  unfolding conclude
  wait_or_end f s =
      if s.unfinished_tasks == 0
      then conclude f s
      else record s { on_completed_fut = some pending; stage = waiting f }

  -- `if et is asyncio.CancelledError and self._parent_cancel_requested`
  unfoldable pub own_cancel : Error → Store → Bool
  unfolding is_cancelled
  own_cancel e s = is_cancelled (some e) && s.parent_cancel_requested

  -- The parent is no longer marked as cancelled.
  unfoldable pub take_back : Error → Store → Store
  unfolding own_cancel
  take_back e s =
      if own_cancel e s
      then record s { parent = record s.parent { cancel_requested = false } }
      else s

  unfoldable pub abort_once : Store → Store
  unfolding abort
  abort_once s = if s.aborting then s else abort s

  -- `__aexit__` from its beginning
  unfoldable pub aexit : Option Error → Store → Store
  unfolding note_base is_cancelled own_cancel take_back abort_once wait_or_end
  aexit none s =
      wait_or_end (record { propagate_cancelation = false; exc = none })
        (record s { exiting = true })
  aexit (some e) s =
      let s' = note_base cancelled_is_base e (record s { exiting = true }) in
      let propagate = is_cancelled (some e) && (not s'.aborting || not (own_cancel e s')) in
      wait_or_end (record { propagate_cancelation = propagate; exc = some e })
        (abort_once (take_back e s'))

  -- `if not self._aborting: propagate_cancelation = True`
  unfoldable pub interrupted_frame : Frame → Store → Frame
  interrupted_frame f s = if s.aborting then f else record f { propagate_cancelation = true }

  -- Waiting raised `CancelledError`.
  unfoldable pub interrupted : Frame → Store → Store
  unfolding interrupted_frame abort_once wait_or_end
  interrupted f s = wait_or_end (interrupted_frame f s) (
      abort_once
        (record s { on_completed_fut = none; parent = record s.parent { must_cancel = false } }))

  -- The parent goes on in `__aexit__` after it waited.
  unfoldable pub resume : Store → Store
  unfolding interrupted wait_or_end
  resume s = elim s.stage [
    | waiting f ↦ elim s.on_completed_fut [
      | some pending ↦ s
      | none ↦ s
      | some resolved ↦
          if s.parent.must_cancel
          then interrupted f s
          else wait_or_end f (record s { on_completed_fut = none })
      | some withdrawn ↦ interrupted f s
    ]
    | _ ↦ s
  ]
