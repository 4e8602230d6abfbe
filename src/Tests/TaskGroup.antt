-- ===== src/Tests/TaskGroup.antt =====
-- A block with two tasks, one of which fails, and a block that waits for its task.
use edgedb_python.Prelude.{◌≡◌, refl, true, false, List, [], ◌∷◌, none, some, All}
use edgedb_python.Errors.Raise.{ok}
use edgedb_python.TaskGroup.{
  exception, cancelled_error, Outcome, returned, cancelled, failed, reported, inside, ended, left,
  raises, raises_group, Store, Parent, on_task_done,
}
use edgedb_python.TaskGroup.Exit.{aexit}
use edgedb_python.TaskGroup.Runs.{
  Event, enter, create, wake, finish, report, leave, run, reached, mark_reported,
}
use edgedb_python.TaskGroup.Counted.{Counted}
use edgedb_python.TaskGroup.Ends.{run-init-Counted, callbacks_succeed, ended_block}
use edgedb_python.TaskGroup.Hidden.{errors_are_hidden}

abbrev parent : Parent
parent = record { patched = false; cancel_requested = false; must_cancel = false; finished = false }

-- The task that fails cancels the block, which waits for the other one.
abbrev failing : List Event
failing =
    enter
    ∷ create
    ∷ create
    ∷ finish 0 (failed (exception 1))
    ∷ report 0
    ∷ leave (some cancelled_error)
    ∷ finish 1 cancelled
    ∷ report 1
    ∷ wake
    ∷ []

group_is_raised : (reached false failing parent).stage ≡ ended (raises_group (exception 1 ∷ []))
unfolding run
group_is_raised = refl

cancellation_is_raised : (reached true failing parent).stage ≡ ended (raises cancelled_error)
unfolding run
cancellation_is_raised = refl

run-init-Counted_example : Counted (reached true failing parent)
run-init-Counted_example = run-init-Counted true failing parent

callbacks_succeed_example :
    (on_task_done true returned (
      mark_reported 0 returned
        (reached true (enter ∷ create ∷ leave none ∷ finish 0 returned ∷ []) parent))).0
    ≡ ok tt
unfolding run
callbacks_succeed_example =
    callbacks_succeed true (enter ∷ create ∷ leave none ∷ finish 0 returned ∷ []) parent 0 returned
      refl

ended_block_example :
    All
      (λ t. (o : Outcome) × (t ≡ reported o))
      (reached true
        (enter ∷ create ∷ leave none ∷ finish 0 returned ∷ report 0 ∷ wake ∷ [])
        parent).tasks
unfolding run
ended_block_example =
    ended_block true (enter ∷ create ∷ leave none ∷ finish 0 returned ∷ report 0 ∷ wake ∷ []) parent
      left refl

abbrev collected : Store
collected = record {
  entered = true;
  exiting = false;
  aborting = true;
  parent_cancel_requested = true;
  tasks = reported (failed (exception 1)) ∷ [];
  unfinished_tasks = 0;
  errors = exception 1 ∷ [];
  base_error = none;
  on_completed_fut = none;
  parent = record {
    patched = true;
    cancel_requested = true;
    must_cancel = false;
    finished = false;
  };
  stage = inside;
}

errors_are_hidden_example :
    ((aexit true (some cancelled_error) collected).stage ≡ ended (raises cancelled_error))
    × ((aexit false (some cancelled_error) collected).stage
        ≡ ended (raises_group (exception 1 ∷ [])))
errors_are_hidden_example = errors_are_hidden collected refl refl refl refl cc
