-- ===== src/Retry.antt =====
-- edgedb/retry.py: `BaseRetry`, `AsyncIORetry` and `AsyncIOIteration`, and the loop
-- `async for tx in retry: async with tx: body` that a program writes over them.
pub mod Decision
pub mod Bound
use edgedb_python.Prelude.{
  ℕ, zero, suc, ◌+◌, ◌≡◌, refl, String, Bool, true, false, not, ◌&&◌, ◌==◌, nat_eq, leb, Option,
  none, some, if◌then◌else◌, arith,
}
use edgedb_python.Errors.Class.{edgedb_error, is_subclass, has_tag, should_retry}
use edgedb_python.Errors.Raise.{Exception, Result, ok, raised, new}
use edgedb_python.Errors.Client.{interface_error}
use edgedb_python.Options.{Options, RetryRule, rule_for}
use edgedb_python.Connection.{BorrowReason, Env}
use edgedb_python.Transaction.{Transaction, Owner, Action, init, start_with, enter, exit}

-- `BaseRetry`
pub record Retry : Type 0 where
  pub iteration : ℕ
  pub done : Bool
  pub next_backoff : ℕ
  pub options : Options

-- `BaseRetry.__init__`
unfoldable pub init_retry : Options → Retry
init_retry options = record { iteration = 0; done = false; next_backoff = 0; options = options }

-- `_retry`
unfoldable pub retry_after : Exception → Retry → Result Bool × Retry
retry_after exc r = elim (rule_for r.options exc) [
  | raised e ↦ (raised e, r)
  | ok rule ↦
      if leb rule.attempts r.iteration
      then (ok false, r)
      else (ok true, record r { done = false; next_backoff = rule.backoff r.iteration })
]

-- Whether the exception alone asks for another attempt.
unfoldable pub is_retryable : Exception → Bool
is_retryable ex = is_subclass ex.cls edgedb_error && has_tag ex.cls should_retry

-- The end of `__aexit__`: what it returns.
unfoldable pub judge : Option Exception → Retry → Result Bool × Retry
unfolding is_retryable
judge none r = (ok false, r)
judge (some ex) r = if is_retryable ex then retry_after ex r else (ok false, r)

-- The `except errors.EdgeDBError` clause of `__aexit__`: the error that it lets through.
unfoldable pub escapes : Option Exception → Result (Unit {0}) → Option Exception
escapes ex (ok _) = none
escapes none (raised err) = some err
escapes (some ex) (raised err) = if is_subclass err.cls edgedb_error then none else some err

is_some : Option Exception → Bool
is_some none = false
is_some (some e) = true

-- The state of the loop: the retry object, `_borrowed_for` of the owner, and the world.
pub record Loop (W : Type 0) : Type 0 where
  pub retry : Retry
  pub borrowed : Option BorrowReason
  pub world : W

module _ {W : Type 0} (env : Env W) where
  open env use {sleep}

  -- `__anext__`: the number of the new iteration, or `none` for StopAsyncIteration.
  unfoldable pub next : Retry → W → Option ℕ × Retry × W
  next r w = if r.done then (none, r, w) else (
    some r.iteration,
    record r { done = true; iteration = r.iteration + 1 },
    (if r.next_backoff == 0 then w else sleep r.next_backoff w),
  )

  -- `AsyncIOIteration.start`
  unfoldable pub iteration_start : ℕ → Action W
  unfolding new
  iteration_start n t = if t.managed then start_with env (not (n == 0)) t else (
    raised (
        new interface_error
          "Only managed retriable transactions are supported. Use `async with transaction:`"),
    t,
  )

  -- `AsyncIOIteration.__aexit__`
  unfoldable pub iteration_exit :
      Option Exception → Transaction W → Retry → Result Bool × Transaction W × Retry
  unfolding is_some
  iteration_exit ex t r =
      let (o, t') = exit env (is_some ex) t in
      elim (escapes ex o) [
        | some err ↦ (raised err, t', r)
        | none ↦ let (b, r') = judge ex r in (b, t', r')
      ]

  -- The rest of the `async with` block once it is entered.
  unfoldable pub leave : Option Exception → Transaction W → Retry → Result (Unit {0}) × Loop W
  leave ex t r =
      let (b, t', r') = iteration_exit ex t r in
      (
        elim b [
          | raised e ↦ raised e
          | ok swallow ↦ elim ex [ none ↦ ok tt | some e ↦ if swallow then ok tt else raised e ]
        ],
        record { retry = r'; borrowed = t'.borrowed_for; world = t'.world },
      )

  module _ (owner : Owner) (body : ℕ → W → Option Exception × W) where
    -- `async with tx: body`, after `__aenter__`
    unfoldable pub run_body :
        ℕ → Loop W → Result (Unit {0}) × Transaction W → Result (Unit {0}) × Loop W
    run_body n l (raised e, t) = (raised e, record l { borrowed = t.borrowed_for; world = t.world })
    run_body n l (ok _, t) =
        let (ex, w) = body n t.world in leave ex (record t { world = w }) l.retry

    -- `async with tx: body`
    unfoldable pub block : ℕ → Loop W → Result (Unit {0}) × Loop W
    block n l = run_body n l (
        enter (iteration_start n)
          (init owner l.retry.options.transaction_options l.borrowed l.world))

    -- `async for tx in retry`, on fuel: `none` when the fuel runs out.
    unfoldable pub loop : ℕ → Loop W → Option (Result (Unit {0}) × Loop W)
    loop zero l = none
    loop (suc fuel) l =
        let (it, r, w) = next l.retry l.world in
        elim it [
          | none ↦ some (ok tt, record l { retry = r; world = w })
          | some n ↦
              let (o, l') = block n (record l { retry = r; world = w }) in
              elim o [ raised e ↦ some (raised e, l') | ok _ ↦ loop fuel l' ]
        ]
