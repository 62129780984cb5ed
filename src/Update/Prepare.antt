-- ===== src/Update/Prepare.antt =====
-- The preparation of an updatable item in backend/core/update_actions/update_actions_executor.py.
use tugtainer.Base.{Option, none, some, [], Text}
use tugtainer.Docker.{
  truthy, first_of, Container, Image, is_running_container, get_container_image_spec,
}
use tugtainer.Exec.{no_image, value, Exec, raise, lift, ◌>>=◌, ◌>>◌, try_except, modify, get}
use tugtainer.Agent.{inspect_image, pull_image, sleep, Agent, request, Configs}
use tugtainer.Update.Item.{Item, St, on_log, add_error}

-- The item that `execute_update_plan` makes of a container.
unfoldable pub new_item : {Config : Type 0} → Container → Item Config
new_item c = record {
  container = c;
  image_spec = get_container_image_spec c;
  was_running = is_running_container c;
  config = none;
  commands = [];
  local_image = none;
  remote_image = none;
  result = none;
  errors = [];
}

module _ (configs : Configs) where
  open configs use {Config, get_container_config}

  module _ (agent : Agent Config) where
    abbrev pub inspect_spec : Option Text → Exec (St Config) Image
    inspect_spec none = raise no_image
    inspect_spec (some spec) =
        on_log (request (inspect_image spec) (λ log. agent.image_inspected log spec))

    unfoldable pub get_local_image : Exec (St Config) (Unit {0})
    get_local_image = do
      s ← get
      image ← inspect_spec (first_of (truthy s.item.container.image) (truthy s.item.image_spec))
      modify (λ t. record t { item = record t.item { local_image = some image } })

    -- `image=None` is refused by the schema, before any request.
    abbrev pub pull_spec : Option Text → Exec (St Config) Image
    pull_spec none = raise no_image
    pull_spec (some spec) = on_log (request (pull_image spec) (λ log. agent.image_pulled log spec))

    unfoldable pub pull_new_image : Exec (St Config) (Unit {0})
    pull_new_image = do
      s ← get
      image ← pull_spec s.item.image_spec
      modify (λ t. record t { item = record t.item { remote_image = some image } })

    unfoldable pub prepare_config : Exec (St Config) (Unit {0})
    prepare_config = do
      s ← get
      r ← lift (get_container_config s.item.container s.item.local_image)
      modify (λ t. record t { item = record t.item { config = some r.0; commands = r.1 } })

    unfoldable pub prepare : Exec (St Config) (Unit {0})
    unfolding get_local_image pull_new_image prepare_config
    prepare = do
      try_except get_local_image add_error
      try_except pull_new_image add_error
      try_except prepare_config add_error
      on_log (request sleep (λ _. value tt))
