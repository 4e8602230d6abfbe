-- ===== src/TaskGroup/Runs.antt =====
-- What can happen to a task group, in any order: calls of the block, tasks that end, their callbacks,
-- and cancellations of the parent. An event that cannot happen changes nothing.
use edgedb_python.Prelude.{ℕ, Bool, true, List, [], ◌∷◌, Option, some, get_elem?, set}
use edgedb_python.TaskGroup.{
  Error, Outcome, running, done, reported, inside, ended, Store, Parent, init, aenter, create_task,
  on_task_done, cancel_parent,
}
use edgedb_python.TaskGroup.Exit.{aexit, resume}

pub data Event : Type 0 where
  enter create wake interrupt finish_parent : Event
  finish : ℕ → Outcome → Event
  report : ℕ → Event
  leave : Option Error → Event

-- A task that runs ends.
unfoldable pub finish_task : ℕ → Outcome → Store → Store
finish_task i o s = elim (get_elem? s.tasks i) [
  | some running ↦ record s { tasks = set s.tasks i (done o) }
  | _ ↦ s
]

-- The loop is to call the callback of this task.
abbrev pub mark_reported : ℕ → Outcome → Store → Store
mark_reported i o s = record s { tasks = set s.tasks i (reported o) }

module _ (cancelled_is_base : Bool) where
  -- The loop calls the callback of a task that is done.
  unfoldable pub report_task : ℕ → Store → Store
  unfolding on_task_done
  report_task i s = elim (get_elem? s.tasks i) [
    | some (done o) ↦ (on_task_done cancelled_is_base o (mark_reported i o s)).1
    | _ ↦ s
  ]

  unfoldable pub leave_block : Option Error → Store → Store
  unfolding aexit
  leave_block e s = elim s.stage [ inside ↦ aexit cancelled_is_base e s | _ ↦ s ]

  unfoldable pub end_parent : Store → Store
  end_parent s = elim s.stage [
    | ended e ↦ record s { parent = record s.parent { finished = true } }
    | _ ↦ s
  ]

  unfoldable pub step : Event → Store → Store
  unfolding aenter create_task finish_task report_task leave_block resume cancel_parent end_parent
  step enter s = (aenter s).1
  step create s = (create_task s).1
  step (finish i o) s = finish_task i o s
  step (report i) s = report_task i s
  step (leave e) s = leave_block e s
  step wake s = resume cancelled_is_base s
  step interrupt s = cancel_parent s
  step finish_parent s = end_parent s

  unfoldable pub run : List Event → Store → Store
  unfolding step
  run [] s = s
  run (event ∷ events) s = run events (step event s)

  -- The store after these events
  abbrev pub reached : List Event → Parent → Store
  reached events parent = run events (init parent)
