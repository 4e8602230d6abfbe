-- ===== src/TaskGroup.antt =====
-- edgedb/_taskgroup.py: tasks that end with the block that starts them. The methods are cut where the
-- parent task waits. A `Store` is the group, its parent task, and where the parent stands in the block.
pub mod Exit
pub mod Runs
pub mod Counted
pub mod Methods
pub mod Ends
pub mod Hidden
use edgedb_python.Prelude.{
  ◌||◌, ℕ, zero, suc, ◌==◌, nat_eq, Bool, true, false, ◌&&◌, not, List, [], ◌∷◌, ◌++◌, map, Option,
  none, some, get_elem?, set, if◌then◌else◌, String,
}
use edgedb_python.Errors.Class.{builtin}
use edgedb_python.Errors.Raise.{Result, ok, raised, new}

-- What a task raises; the numbers tell exceptions apart.
pub data Error : Type 0 where
  exception base_exception : ℕ → Error
  cancelled_error : Error

pub data Outcome : Type 0 where
  returned cancelled : Outcome
  failed : Error → Outcome

-- A task of the group: `reported` when its callback has run.
pub data Task : Type 0 where
  running : Task
  done reported : Outcome → Task

-- `asyncio.Future`
pub data Future : Type 0 where
  pending resolved withdrawn : Future

-- How `__aexit__` ends.
pub data Ended : Type 0 where
  left : Ended
  raises : Error → Ended
  raises_group : List Error → Ended

-- The local variables of `__aexit__` while it waits.
pub record Frame : Type 0 where
  pub propagate_cancelation : Bool
  pub exc : Option Error

pub data Stage : Type 0 where
  outside inside : Stage
  waiting : Frame → Stage
  ended : Ended → Stage

-- The parent task; `must_cancel` is a cancellation that no future has taken.
pub record Parent : Type 0 where
  pub patched : Bool
  pub cancel_requested : Bool
  pub must_cancel : Bool
  pub finished : Bool

pub record Store : Type 0 where
  pub entered : Bool
  pub exiting : Bool
  pub aborting : Bool
  pub parent_cancel_requested : Bool
  pub tasks : List Task
  pub unfinished_tasks : ℕ
  pub errors : List Error
  pub base_error : Option Error
  pub on_completed_fut : Option Future
  pub parent : Parent
  pub stage : Stage

-- `TaskGroup.__init__`, in a parent task
abbrev pub init : Parent → Store
init parent = record {
  entered = false;
  exiting = false;
  aborting = false;
  parent_cancel_requested = false;
  tasks = [];
  unfinished_tasks = 0;
  errors = [];
  base_error = none;
  on_completed_fut = none;
  parent = parent;
  stage = outside;
}

-- `_patch_task`
unfoldable pub patch_task : Parent → Parent
patch_task p = if p.patched then p else record p { patched = true; cancel_requested = false }

-- `__aenter__`; that there is a current task is not tested.
unfoldable pub aenter : Store → Result (Unit {0}) × Store
unfolding patch_task new
aenter s =
    if s.entered
    then (raised (new (builtin "RuntimeError") "TaskGroup has been already entered"), s)
    else (ok tt, record s { entered = true; parent = patch_task s.parent; stage = inside })

-- `create_task`
unfoldable pub create_task : Store → Result (Unit {0}) × Store
unfolding new
create_task s =
    if not s.entered
    then (raised (new (builtin "RuntimeError") "TaskGroup has not been entered"), s)
    else if s.exiting
    then (raised (new (builtin "RuntimeError") "TaskGroup is awaiting in exit"), s)
    else (
      ok tt,
      record s { tasks = s.tasks ++ running ∷ []; unfinished_tasks = suc s.unfinished_tasks },
    )

-- `_abort`: cancelling asks a task to end, which it does later, or not at all.
unfoldable pub abort : Store → Store
abort s = record s { aborting = true }

-- `asyncio.Task.cancel` of a task that waits in `__aexit__` for this future
unfoldable pub cancel_waiter : Store → Store
cancel_waiter s = elim s.on_completed_fut [
  | some pending ↦ record s { on_completed_fut = some withdrawn }
  | _ ↦ record s { parent = record s.parent { must_cancel = true } }
]

-- `cancel` of the parent task, as `_patch_task` made it. Where the parent waits for something of its
-- own, that this is cancelled is not part of the store.
unfoldable pub cancel_parent : Store → Store
unfolding cancel_waiter
cancel_parent s =
    let s' : Store = record s { parent = record s.parent { cancel_requested = true } } in
    elim s.stage [ waiting f ↦ cancel_waiter s' | _ ↦ s' ]

-- `CancelledError` derives from `Exception` before Python 3.8, and only from `BaseException` since.
module _ (cancelled_is_base : Bool) where
  unfoldable pub is_base_error : Error → Bool
  is_base_error (exception n) = false
  is_base_error (base_exception n) = true
  is_base_error cancelled_error = cancelled_is_base

  -- `if self._is_base_error(exc) and self._base_error is None`
  unfoldable pub note_base : Error → Store → Store
  unfolding is_base_error
  note_base e s = elim s.base_error [
    | some b ↦ s
    | none ↦ if is_base_error e then record s { base_error = some e } else s
  ]

  -- `if self._exiting and not self._unfinished_tasks`
  unfoldable pub notify : Store → Result (Unit {0}) × Store
  unfolding new
  notify s =
      if s.exiting && s.unfinished_tasks == 0
      then elim s.on_completed_fut [
        | none ↦
            (raised (new (builtin "AttributeError") "'NoneType' object has no attribute 'done'"), s)
        | some pending ↦ (ok tt, record s { on_completed_fut = some resolved })
        | some _ ↦ (ok tt, s)
      ]
      else (ok tt, s)

  -- The end of `_on_task_done`
  unfoldable pub ask_parent : Store → Store
  unfolding cancel_parent
  ask_parent s =
      if s.parent.cancel_requested
      then s
      else cancel_parent (record s { parent_cancel_requested = true })

  -- `_on_task_done` for a task that raised this
  unfoldable pub task_failed : Error → Store → Store
  unfolding note_base abort ask_parent
  task_failed e s =
      let s' = note_base e (record s { errors = s.errors ++ e ∷ [] }) in
      if s'.parent.finished then s' else ask_parent (abort s')

  unfoldable pub outcome_of : Outcome → Store → Store
  unfolding task_failed
  outcome_of (failed e) s = task_failed e s
  outcome_of _ s = s

  -- `_on_task_done`
  unfoldable pub on_task_done : Outcome → Store → Result (Unit {0}) × Store
  unfolding notify outcome_of new
  on_task_done o s = elim s.unfinished_tasks [
    | zero ↦ (raised (new (builtin "AssertionError") ""), s)
    | suc n ↦
        let (r, s') = notify (record s { unfinished_tasks = n }) in
        elim r [ raised e ↦ (raised e, s') | ok _ ↦ (ok tt, outcome_of o s') ]
  ]
