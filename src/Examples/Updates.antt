-- ===== src/Examples/Updates.antt =====
-- A round of the update of "api", by an agent that starts no container.
use tugtainer.Base.{
  ◌*◌, ◌≡◌, refl, ◌⊎◌, ◌||◌, true, false, ◌&&◌, none, some, [], ◌∷◌, Text, codes, length, ◌==◌,
  arith,
}
use tugtainer.Docker.{Image, has_healthcheck, is_running_container}
use tugtainer.Exec.{agent_error, ok, value, error, ◌>>=◌}
use tugtainer.Agent.{Agent, Configs, request}
use tugtainer.Update.Item.{St, can_update}
use tugtainer.Update.Wait.{is_ready, is_ready_at_last, wait_for_container_healthy}
use tugtainer.Update.Wait.Health.{ClockRuns, has_id, wait_report}
use tugtainer.Update.Keeps.{Keeps}
use tugtainer.Update.Step.{step}
use tugtainer.Update.Step.Total.{step_total}
use tugtainer.Update.Step.Results.{Ended}
use tugtainer.Update.Step.Contract.{is_gentle, step_gentle, step_finished}
use tugtainer.Examples.Containers.{api}

-- A configuration is a name.
abbrev pub by_name : Configs
by_name = record {
  Config = Text;
  get_container_config = λ c image. value (c.name, []);
  diff_container_config_with_image = λ config image. value config;
}

abbrev image : Image
image = record { id = some (codes "i"); repo_digests = none; config = none }

abbrev pub agent : Agent Text
agent = record {
  inspected = λ log name. value api;
  found = λ log name. value true;
  stopped = λ log name. value tt;
  started = λ log name. error (agent_error name);
  removed = λ log name. value tt;
  created = λ log config. value api;
  executed = λ log name command. value tt;
  disconnected = λ log network name force. value tt;
  image_inspected = λ log spec. value image;
  image_pulled = λ log spec. value image;
  image_tagged = λ log id spec. value tt;
  command_run = λ log command. value tt;
  clock = λ log. 5 * length log;
}

pub clock_runs : ClockRuns agent
clock_runs = record { passes = λ call log. omega arith; sleeps = λ log. omega arith }

abbrev pub ready : St Text
ready = record {
  item = record {
    container = api;
    image_spec = some (codes "api");
    was_running = true;
    config = some (codes "api");
    commands = [];
    local_image = some image;
    remote_image = some image;
    result = none;
    errors = [];
  };
  log = [];
}

-- A hook failed before.
abbrev held_up : St Text
held_up = record ready { item = record ready.item { errors = agent_error (codes "hook") ∷ [] } }

is_updatable : can_update ready.item ≡ true
unfolding can_update
is_updatable = refl

is_held_up : (true && can_update held_up.item) ≡ false
unfolding can_update
is_held_up = refl

step_total_example : (step by_name agent 61 60 none true false ready).0 ≡ ok tt
step_total_example = step_total by_name agent 61 60 none clock_runs (omega arith) true false ready

step_finished_example :
    Ended by_name agent 61 60 none (codes "api") (step by_name agent 61 60 none true false ready).1
step_finished_example =
    step_finished by_name agent 61 60 none clock_runs (omega arith) false (codes "api") ready
      is_updatable refl

step_gentle_example : Keeps is_gentle held_up (step by_name agent 61 60 none true true held_up).1
step_gentle_example = step_gentle by_name agent 61 60 none true true held_up is_held_up

is_reported : (wait_for_container_healthy agent 61 api 60 []).0 ≡ ok (true, api)
unfolding wait_for_container_healthy is_ready ◌>>=◌ request has_healthcheck is_running_container
    ◌==◌
is_reported = refl

wait_report_example :
    (true ≡ true → (is_ready (has_healthcheck api) api || is_ready_at_last api) ≡ true)
    × (true ≡ false → (has_id agent api.id ≡ false) ⊎ (is_ready_at_last api ≡ false))
wait_report_example = wait_report agent 61 api 60 [] true api is_reported
