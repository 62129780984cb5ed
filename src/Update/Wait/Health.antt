-- ===== src/Update/Wait/Health.antt =====
-- The wait ends, and reports what the last answer of the agent says.
use tugtainer.Base.{
  ℕ, zero, suc, ◌+◌, ◌≤◌, ◌<◌, ◌≡◌, ◌≢◌, Bool, true, false, not, ◌||◌, Option, none, some, ◌∷◌,
  Text, is_empty, arith, Option-cases, ◌⊎◌, inl, inr,
}
use tugtainer.Docker.{Container, has_healthcheck}
use tugtainer.Exec.{ok, stuck, pure, ◌>>=◌}
use tugtainer.Exec.Laws.{Ends}
use tugtainer.Agent.{Call, inspect, sleep, Log, Agent, request}
use tugtainer.Update.Wait.{is_ready, is_ready_at_last, poll, wait_for_container_healthy}

-- Time does not run backwards, and a wait of five seconds takes that long.
pub record ClockRuns {Config : Type 0} (agent : Agent Config) : Type 0 where
  pub passes : (call : Call Config) (log : Log Config) → agent.clock log ≤ agent.clock (call ∷ log)
  pub sleeps : (log : Log Config) → agent.clock log + 5 ≤ agent.clock (sleep ∷ log)

module _ {Config : Type 0} (agent : Agent Config) where
  poll_ends :
      ClockRuns agent
      → (fuel : ℕ) (health : Bool) (id : Text) (begun timeout : ℕ) (log : Log Config) → 0 < fuel
      → begun + timeout < agent.clock log + fuel
      → (poll agent fuel health id begun timeout log).0 ≢ stuck
  unfolding poll ◌>>=◌ request
  poll_ends c zero health id begun timeout log p h = absurd (omega arith)
  poll_ends c (suc fuel) health id begun timeout log p h = ground (
    arith,
    poll_ends c fuel health id begun timeout (sleep ∷ inspect id ∷ log),
    c.passes (inspect id) log,
    c.sleeps (inspect id ∷ log),
  )

  -- Where the clock runs, with more fuel than the timeout has seconds, the wait comes to an end, by an answer or an exception.
  pub wait-Ends :
      ClockRuns agent
      → (fuel : ℕ) (c : Container) (timeout : ℕ) → timeout < fuel
      → Ends (wait_for_container_healthy agent fuel c timeout)
  unfolding wait_for_container_healthy pure
  wait-Ends runs fuel c timeout le = record {
    at = λ log.
        let go = λ (i : Text).
          poll_ends runs fuel (has_healthcheck c) i (agent.clock log) timeout log (omega arith)
            (omega arith) in
        elim (Option-cases c.id) [
          | inl n ↦ ground (arith, n)
          | inr (i, e) ↦ ground (arith, e, go i)
        ];
  }

  abbrev pub has_id : Option Text → Bool
  has_id none = false
  has_id (some id) = not (is_empty id)

  poll_report :
      (fuel : ℕ) (health : Bool) (id : Text) (begun timeout : ℕ) (log : Log Config) (b : Bool)
      (c : Container)
      → (poll agent fuel health id begun timeout log).0 ≡ ok (b, c)
      → (b ≡ true → (is_ready health c || is_ready_at_last c) ≡ true)
        × (b ≡ false → is_ready_at_last c ≡ false)
  unfolding poll ◌>>=◌ request
  poll_report zero health id begun timeout log b c h = absurd (ground (arith, h))
  poll_report (suc fuel) health id begun timeout log b c h =
      ground (arith, h, poll_report fuel health id begun timeout (sleep ∷ inspect id ∷ log) b c)

  -- A wait that reports "healthy" was answered with a container that is healthy, or running where it
  -- has no health check, or, at the last attempt, running and healthy or of unknown health. One that
  -- reports the contrary had no identifier, or the last attempt said otherwise.
  pub wait_report :
      (fuel : ℕ) (c : Container) (timeout : ℕ) (log : Log Config) (b : Bool) (d : Container)
      → (wait_for_container_healthy agent fuel c timeout log).0 ≡ ok (b, d)
      → (b ≡ true → (is_ready (has_healthcheck c) d || is_ready_at_last d) ≡ true)
        × (b ≡ false → (has_id c.id ≡ false) ⊎ (is_ready_at_last d ≡ false))
  unfolding wait_for_container_healthy pure
  wait_report fuel c timeout log b d h =
      let go =
        λ (i : Text). poll_report fuel (has_healthcheck c) i (agent.clock log) timeout log b d in
      elim (Option-cases c.id) [
        | inl n ↦ ground (arith, n, h)
        | inr (i, e) ↦ ground (arith, e, h, go i)
      ]
