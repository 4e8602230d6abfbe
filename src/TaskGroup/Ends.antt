-- ===== src/TaskGroup/Ends.antt =====
-- What holds after any events: the tasks of a block that has ended are all done, and no callback fails.
use edgedb_python.Prelude.{
  ℕ, suc, ◌≡◌, refl, sym, ap, ◌∙◌, nat_eq, Bool, true, false, List, [], ◌∷◌, Option, some,
  get_elem?, All, arith, inl, inr, Bool-cases, Option-cases,
}
use edgedb_python.Errors.Raise.{ok}
use edgedb_python.TaskGroup.{
  Error, Outcome, Task, running, done, reported, Stage, outside, inside, waiting, ended, Ended,
  Store, Parent, init, aenter, create_task, on_task_done,
}
use edgedb_python.TaskGroup.Runs.{
  Event, enter, create, wake, interrupt, finish_parent, finish, report, leave, finish_task,
  report_task, leave_block, end_parent, step, run, reached, mark_reported,
}
use edgedb_python.TaskGroup.Counted.{
  open_tasks, open_tasks-append, open_tasks-finished, open_tasks-reported, Stage-cases, At, Counted,
  cancel_parent-Counted,
}
use edgedb_python.TaskGroup.Methods.{on_task_done-Counted, aexit-Counted, resume-Counted}

before_entering :
    (t : Stage) (en ex : Bool) (fut : _) (n : ℕ) → en ≡ false → At t en ex fut n → ex ≡ false
before_entering outside en ex fut n e (h, idle) = idle
before_entering inside en ex fut n e (h, idle) = absurd (cc (sym e ∙ h))
before_entering (waiting f) en ex fut n e (h, busy, rest) = absurd (cc (sym e ∙ h))
before_entering (ended o) en ex fut n e (h, busy, rest) = absurd (cc (sym e ∙ h))

while_creating :
    (t : Stage) (en ex : Bool) (fut : _) (n : ℕ)
    → en ≡ true
    → ex ≡ false
    → At t en ex fut n
    → At t en ex fut (suc n)
while_creating outside en ex fut n e e' (h, idle) = absurd (cc (sym e ∙ h))
while_creating inside en ex fut n e e' h = h
while_creating (waiting f) en ex fut n e e' (h, busy, rest) = absurd (cc (sym e' ∙ busy))
while_creating (ended o) en ex fut n e e' (h, busy, z) = absurd (cc (sym e' ∙ busy))

aenter-Counted : (s : Store) → Counted s → Counted (aenter s).1
unfolding aenter
aenter-Counted s (c, h) = elim (Bool-cases s.entered) [
  | inl e ↦ rw (e, aenter) (c, rw e at h)
  | inr e ↦
      rw (e, aenter)
        (
          c,
          (
            refl,
            before_entering s.stage s.entered s.exiting s.on_completed_fut s.unfinished_tasks e h,
          ),
        )
]

create_task-Counted : (s : Store) → Counted s → Counted (create_task s).1
unfolding create_task
create_task-Counted s (c, h) = elim (Bool-cases s.entered) [
  | inr e ↦ rw (e, create_task) (c, rw e at h)
  | inl e ↦ elim (Bool-cases s.exiting) [
    | inl e' ↦ rw (e, create_task) (rw e' (c, rw (e, e') at h))
    | inr e' ↦
        rw (e, create_task)
          (rw e' (
            ap suc c ∙ sym (open_tasks-append s.tasks),
            rw (e, e') at
                (while_creating s.stage s.entered s.exiting s.on_completed_fut s.unfinished_tasks e
                  e' h),
          ))
  ]
]

finish_task-Counted : (i : ℕ) (o : Outcome) (s : Store) → Counted s → Counted (finish_task i o s)
unfolding finish_task
finish_task-Counted i o s (c, h) = elim (Option-cases (get_elem? s.tasks i)) [
  | inl e ↦ rw (e, finish_task) (c, h)
  | inr (reported x, e) ↦ rw (e, finish_task) (c, h)
  | inr (done x, e) ↦ rw (e, finish_task) (c, h)
  | inr (running, e) ↦ rw (e, finish_task) (c ∙ sym (open_tasks-finished s.tasks i o e), h)
]

all_reported : (ts : List Task) → open_tasks ts ≡ 0 → All (λ t. (o : Outcome) × (t ≡ reported o)) ts
unfolding open_tasks
all_reported [] e = tt
all_reported (reported o ∷ ts) e = ((o, refl), all_reported ts e)
all_reported (running ∷ ts) e = absurd (omega (arith, e))
all_reported (done o ∷ ts) e = absurd (omega (arith, e))

module _ (cancelled_is_base : Bool) where
  -- The callback of a task that is done, in any store that keeps count.
  callback_of :
      (s : Store) (i : ℕ) (o : Outcome)
      → Counted s
      → get_elem? s.tasks i ≡ some (done o)
      → let after = on_task_done cancelled_is_base o (mark_reported i o s) in
        (after.0 ≡ ok tt) × Counted after.1
  callback_of s i o (c, h) e =
      on_task_done-Counted cancelled_is_base o (mark_reported i o s)
        (c ∙ sym (open_tasks-reported s.tasks i o e)) h

  report_task-Counted :
      (i : ℕ) (s : Store) → Counted s → Counted (report_task cancelled_is_base i s)
  unfolding report_task
  report_task-Counted i s h = elim (Option-cases (get_elem? s.tasks i)) [
    | inl e ↦ rw (e, report_task) h
    | inr (reported x, e) ↦ rw (e, report_task) h
    | inr (running, e) ↦ rw (e, report_task) h
    | inr (done o, e) ↦ rw (e, report_task) (callback_of s i o h e).1
  ]

  leave_block-Counted :
      (x : Option Error) (s : Store) → Counted s → Counted (leave_block cancelled_is_base x s)
  unfolding leave_block
  leave_block-Counted x s (c, h) = elim (Stage-cases s.stage) [
    | inl e ↦ rw (e, leave_block) (c, h)
    | inr (inl e) ↦
        let (en, idle) = rw e at h in
        rw (e, leave_block) (aexit-Counted cancelled_is_base x s en (c, h))
    | inr (inr (inl (f, e))) ↦ rw (e, leave_block) (c, h)
    | inr (inr (inr (o, e))) ↦ rw (e, leave_block) (c, h)
  ]

  end_parent-Counted : (s : Store) → Counted s → Counted (end_parent cancelled_is_base s)
  unfolding end_parent
  end_parent-Counted s (c, h) = elim (Stage-cases s.stage) [
    | inl e ↦ rw (e, end_parent) (c, h)
    | inr (inl e) ↦ rw (e, end_parent) (c, h)
    | inr (inr (inl (f, e))) ↦ rw (e, end_parent) (c, h)
    | inr (inr (inr (o, e))) ↦ rw (e, end_parent) (c, h)
  ]

  step-Counted : (event : Event) (s : Store) → Counted s → Counted (step cancelled_is_base event s)
  unfolding step
  step-Counted enter s h = aenter-Counted s h
  step-Counted create s h = create_task-Counted s h
  step-Counted wake s h = resume-Counted cancelled_is_base s h
  step-Counted interrupt s h = cancel_parent-Counted s h
  step-Counted finish_parent s h = end_parent-Counted s h
  step-Counted (finish i o) s h = finish_task-Counted i o s h
  step-Counted (report i) s h = report_task-Counted i s h
  step-Counted (leave x) s h = leave_block-Counted x s h

  run-Counted :
      (events : List Event) (s : Store) → Counted s → Counted (run cancelled_is_base events s)
  unfolding run
  run-Counted [] s h = h
  run-Counted (event ∷ events) s h =
      run-Counted events (step cancelled_is_base event s) (step-Counted event s h)

  -- After any events the group has counted the tasks whose callbacks have not run, and while its end
  -- waits for a future that is not resolved, there is such a task: no wake-up is lost.
  pub run-init-Counted :
      (events : List Event) (parent : Parent) → Counted (reached cancelled_is_base events parent)
  unfolding open_tasks
  run-init-Counted events parent = run-Counted events (init parent) (refl, (refl, refl))

  -- After any events, the callback of a task that is done and was not called back yet raises nothing,
  -- whatever the task's outcome.
  pub callbacks_succeed :
      (events : List Event) (parent : Parent) (i : ℕ) (o : Outcome)
      → get_elem? (reached cancelled_is_base events parent).tasks i ≡ some (done o)
      → (on_task_done cancelled_is_base o
          (mark_reported i o (reached cancelled_is_base events parent))).0
        ≡ ok tt
  callbacks_succeed events parent i o e =
      (callback_of (reached cancelled_is_base events parent) i o (run-init-Counted events parent)
        e).0

  -- After any events, if the block has ended, each of its tasks is done and its callback has run.
  pub ended_block :
      (events : List Event) (parent : Parent) (x : Ended)
      → (reached cancelled_is_base events parent).stage ≡ ended x
      → All (λ t. (o : Outcome) × (t ≡ reported o)) (reached cancelled_is_base events parent).tasks
  ended_block events parent x e =
      let s = reached cancelled_is_base events parent in
      let (c, h) = run-init-Counted events parent in
      let (en, ex, none_) = rw e at h in all_reported s.tasks (sym c ∙ none_)
