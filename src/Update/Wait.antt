-- ===== src/Update/Wait.antt =====
-- backend/core/container_util/wait_for_container_healthy.py
pub mod Health
use tugtainer.Base.{
  ℕ, zero, suc, ◌+◌, ◌-◌, ◌≡◌, refl, Bool, true, false, not, ◌&&◌, ◌||◌, Option, none, some, List,
  [], ◌∷◌, Text, codes, ◌==◌, is_empty, ltb, if◌then◌else◌,
}
use tugtainer.Docker.{
  Container, has_healthcheck, is_running_container, get_container_health_status_str,
}
use tugtainer.Exec.{Result, ok, err, value, stuck, Exec, pure, raise, lift, ◌>>=◌, ◌>>◌}
use tugtainer.Agent.{Call, inspect, sleep, Log, Agent, request}

-- The test inside the loop.
unfoldable pub is_ready : Bool → Container → Bool
is_ready has_healthcheck c =
    if has_healthcheck
    then get_container_health_status_str c == codes "healthy"
    else is_running_container c

-- The test of the last attempt.
unfoldable pub is_ready_at_last : Container → Bool
is_ready_at_last c =
    let health = get_container_health_status_str c in
    is_running_container c && (health == codes "healthy" || health == codes "unknown")

module _ {Config : Type 0} (agent : Agent Config) where
  -- The attempt after the timeout.
  unfoldable pub last_attempt : Text → Exec (Log Config) (Bool × Container)
  unfolding is_ready_at_last
  last_attempt id = do
    c ← request (inspect id) (λ log. agent.inspected log id)
    pure (is_ready_at_last c, c)

  -- `while time.time() - start < timeout`
  unfoldable pub poll : ℕ → Bool → Text → (start timeout : ℕ) → Exec (Log Config) (Bool × Container)
  unfolding last_attempt is_ready
  poll zero health id start timeout log = (stuck, log)
  poll (suc fuel) health id start timeout log =
      let again = (do
        c ← request (inspect id) (λ l. agent.inspected l id)
        let wait = (do request sleep (λ _. value tt); poll fuel health id start timeout)
        if is_ready health c then pure (true, c) else wait) in
      if ltb (agent.clock log) (start + timeout) then again log else last_attempt id log

  abbrev pub with_id :
      (Text → Exec (Log Config) (Bool × Container))
      → Container
      → Option Text
      → Exec (Log Config) (Bool × Container)
  with_id go c none = pure (false, c)
  with_id go c (some id) = if is_empty id then pure (false, c) else go id

  unfoldable pub wait_for_container_healthy :
      ℕ → Container → (timeout : ℕ) → Exec (Log Config) (Bool × Container)
  unfolding poll
  wait_for_container_healthy fuel container timeout log =
      with_id (λ id. poll fuel (has_healthcheck container) id (agent.clock log) timeout) container
        container.id log
