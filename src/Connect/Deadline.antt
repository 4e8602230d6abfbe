-- ===== src/Connect/Deadline.antt =====
-- The loop of `connect` ends.
use edgedb_python.Prelude.{
  ℕ, zero, suc, ◌+◌, ◌≤◌, ◌<◌, ◌≡◌, ◌≢◌, refl, Bool, true, false, List, [], ◌∷◌, Option, none, some,
  arith,
}
use edgedb_python.Errors.Raise.{Result, ok}
use edgedb_python.Params.Address.{Address}
use edgedb_python.Connect.{
  Network, timed_out, next_round, verdict, may_wait, round, rounds, connect,
}

-- The clock does not go back during an attempt, and a pause takes at least a millisecond.
pub record IsClock {W : Type 0} (net : Network W) : Type 0 where
  pub forward : (a : Address) (w : W) → net.clock w ≤ net.clock (net.attempt a w).1
  pub rests : (w : W) → net.clock w < net.clock (net.pause w)

there {ℓ} : {A : Type ℓ} (o : Option A) → o ≢ none → (a : A) × (o ≡ some a)
there none h = absurd (h refl)
there (some a) h = (a, refl)

module _ {W : Type 0} (net : Network W) (max_time : ℕ) (clock : IsClock net) where
  round_forward :
      (i : ℕ) (addrs : List Address) (w : W)
      → net.clock w ≤ net.clock (round net max_time i addrs w).1
  unfolding round
  round_forward i [] w = omega arith
  round_forward i (a ∷ addrs) w =
      let f = clock.forward a w in let g = round_forward i addrs (net.attempt a w).1 in ground arith

  -- After the first round a further round is begun only before the deadline.
  round_again :
      (i : ℕ) (a : Address) (addrs : List Address) (w : W)
      → 2 ≤ i
      → (round net max_time i (a ∷ addrs) w).0 ≡ next_round
      → net.clock w < max_time
  unfolding round verdict may_wait
  round_again i a addrs w later again = let f = clock.forward a w in ground arith

  rounds_return :
      (fuel i : ℕ) (a : Address) (addrs : List Address) (w : W)
      → 2 ≤ i
      → max_time ≤ fuel + net.clock w
      → rounds net max_time (suc fuel) i (a ∷ addrs) w ≢ none
  unfolding rounds
  rounds_return zero i a addrs w later enough =
      λ e. let again = round_again i a addrs w later in ground arith
  rounds_return (suc fuel) i a addrs w later enough = λ e.
      let again = round_again i a addrs w later in
      let forward = round_forward i (a ∷ addrs) w in
      let w' = net.pause (round net max_time i (a ∷ addrs) w).1 in
      let rest = clock.rests (round net max_time i (a ∷ addrs) w).1 in
      let more = rounds_return fuel (i + 1) a addrs w' (omega arith) in ground arith

  first_return :
      (fuel : ℕ) (a : Address) (addrs : List Address) (w : W)
      → max_time ≤ fuel + net.clock w
      → rounds net max_time (suc (suc fuel)) 1 (a ∷ addrs) w ≢ none
  unfolding rounds
  first_return fuel a addrs w enough = λ e.
      let forward = round_forward 1 (a ∷ addrs) w in
      let w' = net.pause (round net max_time 1 (a ∷ addrs) w).1 in
      let rest = clock.rests (round net max_time 1 (a ∷ addrs) w).1 in
      let more = rounds_return fuel 2 a addrs w' (omega arith) (omega arith) in ground arith

-- Where the clock never goes back and each pause takes a millisecond or more, connecting to at
-- least one address returns or raises within `wait_until_available + 2` rounds, whatever the
-- network does.
pub connect_total :
    {W : Type 0} (net : Network W)
    → IsClock net
    → (wait : ℕ) (single_attempt : Bool) (a : Address) (addrs : List Address) (w : W)
    → (r : Result (Unit {0}) × W) × (connect net wait single_attempt (suc (suc wait)) (a ∷ addrs) w
        ≡ some r)
unfolding connect
connect_total net clock wait true a addrs w =
    there _ (first_return net 0 clock wait a addrs w (omega arith))
connect_total net clock wait false a addrs w =
    there _ (first_return net (net.clock w + wait) clock wait a addrs w (omega arith))

-- With `single_attempt` and one address, a first attempt that times out is followed by a second one
-- after a pause: if the second is answered, the connection is made.
single_attempt_retries :
    {W : Type 0} (net : Network W) (wait fuel : ℕ) (a : Address) (w : W)
    → (net.attempt a w).0 ≡ some timed_out
    → (net.attempt a (net.pause (net.attempt a w).1)).0 ≡ none
    → connect net wait true (suc (suc fuel)) (a ∷ []) w
      ≡ some (ok tt, (net.attempt a (net.pause (net.attempt a w).1)).1)
unfolding connect rounds round verdict may_wait
single_attempt_retries net wait fuel a w h k = ground arith
