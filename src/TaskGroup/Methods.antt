-- ===== src/TaskGroup/Methods.antt =====
-- Each part of the methods keeps the count of the unfinished tasks and the future that is waited for.
use edgedb_python.Prelude.{
  ◌||◌, List-cases, suc, ◌≡◌, refl, sym, ap, ◌∙◌, ◌==◌, nat_eq, Bool, true, false, ◌&&◌, not, [],
  ◌∷◌, ◌++◌, Option, none, some, if◌then◌else◌, arith, inl, inr, Bool-cases, Option-cases,
}
use edgedb_python.Errors.Raise.{ok}
use edgedb_python.TaskGroup.{
  Error, Outcome, returned, cancelled, failed, pending, resolved, withdrawn, Frame, Store, abort,
  is_base_error, note_base, notify, ask_parent, task_failed, outcome_of, on_task_done,
}
use edgedb_python.TaskGroup.Exit.{
  interrupted_frame, own_cancel, abort_once, take_back, is_cancelled, all_errors, conclude,
  wait_or_end, aexit, interrupted, resume,
}
use edgedb_python.TaskGroup.Counted.{
  open_tasks, Future-cases, Stage-cases, At, Counted, place_with_more, resolves_last, Exits,
  cancel_parent-Counted,
}

either : (b : Bool) (x y : Store) → Counted x → Counted y → Counted (if b then x else y)
either true x y p q = p
either false x y p q = q

module _ (cancelled_is_base : Bool) where
  pub note_base-Counted :
      (e : Error) (s : Store) → Counted s → Counted (note_base cancelled_is_base e s)
  unfolding note_base
  note_base-Counted e s h = elim (Option-cases s.base_error) [
    | inr (b, there) ↦ rw (there, note_base) h
    | inl none_ ↦ elim (Bool-cases (is_base_error cancelled_is_base e)) [
      | inl base ↦ rw (none_, note_base) (rw (base) h)
      | inr other ↦ rw (none_, note_base) (rw (other) h)
    ]
  ]

  ask_parent-Counted : (s : Store) → Counted s → Counted (ask_parent cancelled_is_base s)
  unfolding ask_parent
  ask_parent-Counted s h = elim (Bool-cases s.parent.cancel_requested) [
    | inl e ↦ rw (e, ask_parent) h
    | inr e ↦
        rw (e, ask_parent) (cancel_parent-Counted (record s { parent_cancel_requested = true }) h)
  ]

  task_failed-Counted :
      (e : Error) (s : Store) → Counted s → Counted (task_failed cancelled_is_base e s)
  unfolding task_failed abort
  task_failed-Counted e s h =
      let s' = note_base cancelled_is_base e (record s { errors = s.errors ++ e ∷ [] }) in
      let h' = note_base-Counted e (record s { errors = s.errors ++ e ∷ [] }) h in
      elim (Bool-cases s'.parent.finished) [
        | inl f ↦ rw (f, task_failed) h'
        | inr f ↦ rw (f, task_failed) (ask_parent-Counted (abort s') h')
      ]

  outcome_of-Counted :
      (o : Outcome) (s : Store) → Counted s → Counted (outcome_of cancelled_is_base o s)
  unfolding outcome_of
  outcome_of-Counted returned s h = h
  outcome_of-Counted cancelled s h = h
  outcome_of-Counted (failed e) s h = task_failed-Counted e s h

  -- The callback of a task finds the future that it resolves.
  notify-Counted :
      (s : Store)
      → s.unfinished_tasks ≡ open_tasks s.tasks
      → At s.stage s.entered s.exiting s.on_completed_fut (suc s.unfinished_tasks)
      → ((notify cancelled_is_base s).0 ≡ ok tt) × Counted (notify cancelled_is_base s).1
  unfolding notify
  notify-Counted s c h = elim (Bool-cases (s.exiting && s.unfinished_tasks == 0)) [
    | inr more ↦
        rw (more, notify)
          (
            refl,
            (
              c,
              place_with_more s.stage s.entered s.exiting s.on_completed_fut s.unfinished_tasks more
                  h,
            ),
          )
    | inl last ↦
        let (x, there, after) =
          resolves_last s.stage s.entered s.exiting s.on_completed_fut s.unfinished_tasks last h in
        elim (Future-cases x) [
          | inl p ↦
              rw (last, notify) (rw (there ∙ ap (λ x. some x) p) (refl, (c, after resolved cc)))
          | inr (inl p) ↦
              let there' = there ∙ ap (λ x. some x) p in
              rw (last, notify) (rw there' (refl, (c, rw (sym there') at (after resolved cc))))
          | inr (inr p) ↦
              let there' = there ∙ ap (λ x. some x) p in
              rw (last, notify) (rw there' (refl, (c, rw (sym there') at (after withdrawn cc))))
        ]
  ]

  -- The callback of a task that is done raises nothing.
  pub on_task_done-Counted :
      (o : Outcome) (s : Store)
      → s.unfinished_tasks ≡ suc (open_tasks s.tasks)
      → At s.stage s.entered s.exiting s.on_completed_fut s.unfinished_tasks
      → ((on_task_done cancelled_is_base o s).0 ≡ ok tt)
        × Counted (on_task_done cancelled_is_base o s).1
  unfolding on_task_done
  on_task_done-Counted o s c h =
      let n = open_tasks s.tasks in
      let s' : Store = record s { unfinished_tasks = n } in
      let (fine, h') = notify-Counted s' refl (rw c at h) in
      rw (c, on_task_done) (rw fine (refl, outcome_of-Counted o (notify cancelled_is_base s').1 h'))

  conclude-Counted :
      (f : Frame) (s : Store)
      → s.entered ≡ true
      → s.exiting ≡ true
      → s.unfinished_tasks ≡ 0
      → s.unfinished_tasks ≡ open_tasks s.tasks
      → Counted (conclude cancelled_is_base f s)
  unfolding conclude
  conclude-Counted f s en ex z c = elim (Option-cases s.base_error) [
    | inr (b, there) ↦ rw (there, conclude) (c, (en, ex, z))
    | inl none_ ↦ elim (Bool-cases f.propagate_cancelation) [
      | inl p ↦ rw (none_, conclude) (rw p (c, (en, ex, z)))
      | inr p ↦ elim (List-cases (all_errors cancelled_is_base f.exc s.errors)) [
        | inl e ↦ rw (none_, conclude) (rw p (rw e (c, (en, ex, z))))
        | inr (x, xs, e) ↦ rw (none_, conclude) (rw p (rw e (c, (en, ex, z))))
      ]
    ]
  ]

  wait_or_end-Counted :
      (f : Frame) (s : Store) → Exits s → Counted (wait_or_end cancelled_is_base f s)
  unfolding wait_or_end
  wait_or_end-Counted f s (en, ex, c) = elim (Bool-cases (s.unfinished_tasks == 0)) [
    | inl z ↦ rw (z, wait_or_end) (conclude-Counted f s en ex (ground (arith, z)) c)
    | inr z ↦ rw (z, wait_or_end) (c, (en, ex, (pending, refl, λ _. ground (arith, z))))
  ]

  note_base-Exits : (e : Error) (s : Store) → Exits s → Exits (note_base cancelled_is_base e s)
  unfolding note_base
  note_base-Exits e s h = elim (Option-cases s.base_error) [
    | inr (b, there) ↦ rw (there, note_base) h
    | inl none_ ↦ elim (Bool-cases (is_base_error cancelled_is_base e)) [
      | inl base ↦ rw (none_, note_base) (rw (base) h)
      | inr other ↦ rw (none_, note_base) (rw (other) h)
    ]
  ]

  take_back-Exits : (e : Error) (s : Store) → Exits s → Exits (take_back cancelled_is_base e s)
  unfolding take_back
  take_back-Exits e s h = elim (Bool-cases (own_cancel cancelled_is_base e s)) [
    | inl own ↦ rw (own, take_back) h
    | inr other ↦ rw (other, take_back) h
  ]

  abort_once-Exits : (s : Store) → Exits s → Exits (abort_once cancelled_is_base s)
  unfolding abort_once abort
  abort_once-Exits s h = elim (Bool-cases s.aborting) [
    | inl a ↦ rw (a, abort_once) h
    | inr a ↦ rw (a, abort_once) h
  ]

  pub aexit-Counted :
      (e : Option Error) (s : Store)
      → s.entered ≡ true
      → Counted s
      → Counted (aexit cancelled_is_base e s)
  unfolding aexit
  aexit-Counted none s en (c, h) =
      wait_or_end-Counted (record { propagate_cancelation = false; exc = none })
        (record s { exiting = true }) (en, refl, c)
  aexit-Counted (some e) s en (c, h) =
      let s' = note_base cancelled_is_base e (record s { exiting = true }) in
      let first = note_base-Exits e (record s { exiting = true }) (en, refl, c) in
      wait_or_end-Counted
        (record {
          propagate_cancelation =
              is_cancelled cancelled_is_base (some e)
              && (not s'.aborting || not (own_cancel cancelled_is_base e s'));
          exc = some e;
        })
        (abort_once cancelled_is_base (take_back cancelled_is_base e s'))
        (abort_once-Exits (take_back cancelled_is_base e s') (take_back-Exits e s' first))

  interrupted-Counted :
      (f : Frame) (s : Store) → Exits s → Counted (interrupted cancelled_is_base f s)
  unfolding interrupted
  interrupted-Counted f s h =
      let s' : Store = record s {
        on_completed_fut = none;
        parent = record s.parent { must_cancel = false };
      } in
      wait_or_end-Counted (interrupted_frame cancelled_is_base f s)
        (abort_once cancelled_is_base s') (abort_once-Exits s' h)

  pub resume-Counted : (s : Store) → Counted s → Counted (resume cancelled_is_base s)
  unfolding resume
  resume-Counted s (c, h) = elim (Stage-cases s.stage) [
    | inl e ↦ rw (e, resume) (c, h)
    | inr (inl e) ↦ rw (e, resume) (c, h)
    | inr (inr (inr (x, e))) ↦ rw (e, resume) (c, h)
    | inr (inr (inl (f, e))) ↦
        let (en, ex, (x, there, more)) = rw e at h in
        elim (Future-cases x) [
          | inl p ↦ rw (e, resume) (rw (there ∙ ap (λ x. some x) p) (c, h))
          | inr (inl p) ↦
              rw (e, resume)
                (rw (there ∙ ap (λ x. some x) p) (
                  either s.parent.must_cancel (interrupted cancelled_is_base f s)
                    (wait_or_end cancelled_is_base f (record s { on_completed_fut = none }))
                    (interrupted-Counted f s (en, ex, c))
                    (wait_or_end-Counted f (record s { on_completed_fut = none }) (en, ex, c))))
          | inr (inr p) ↦
              rw (e, resume) (rw (there ∙ ap (λ x. some x) p) (interrupted-Counted f s (en, ex, c)))
        ]
  ]
