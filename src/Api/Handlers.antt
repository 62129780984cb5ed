-- ===== src/Api/Handlers.antt =====
-- The handlers of the agent: agent/api, with docker's client as a parameter.
use tugtainer.Base.{Bool, List, [], ◌∷◌, Text, codes, if◌then◌else◌}
use tugtainer.Exec.{invalid, Answer, outcome, Exec, pure, raise, ◌>>=◌, ◌>>◌}
use tugtainer.Command.{command_validator}
use tugtainer.Client.Calls.{ContainerOp}

-- What the agent asks of docker. `Object` is what comes and goes as JSON.
pub data DockerOp (Object : Type 0) : Type 0 where
  info version : DockerOp Object
  manifest_inspect : Text → DockerOp Object
  list_containers : Object → DockerOp Object
  has_container : Text → DockerOp Object
  inspect_container : Text → DockerOp Object
  create_container : Object → DockerOp Object
  run_op : ContainerOp → Text → DockerOp Object
  container_logs : Text → Object → DockerOp Object
  execute : Text → (command : Text) → DockerOp Object
  has_image : Text → DockerOp Object
  inspect_image : Text → DockerOp Object
  list_images : Object → DockerOp Object
  prune_images : Object → DockerOp Object
  pull_image : Text → DockerOp Object
  tag_image : Text → (tag : Text) → DockerOp Object
  docker_run : List Text → DockerOp Object
  disconnect_network : Object → DockerOp Object

-- What `run` of python_on_whales returns, whatever its type says.
pub data Ran : Type 0 where
  no_output : Ran
  output : Text → Ran
  two_outputs : Text → Text → Ran
  other_output : (as_text : Text) → Ran

abbrev pub Log : Type 0 → Type 0
Log Object = List (DockerOp Object)

-- The functions behind the routes; those of one container are told by the operation.
pub data Handler : Type 0 where
  health access get_version imagetools_inspect list exists inspect create logs exec_command :
      Handler
  op : ContainerOp → Handler
  image_inspect image_list image_prune image_pull image_tag run disconnect : Handler

-- docker, which may answer each request by an error, and the bodies as the schemas of pydantic read them:
-- `is_valid` says whether there is what a handler wants, `is_ip` whether `ip_address` takes a text.
pub record Docker (Object : Type 0) : Type 0 where
  pub perform : Log Object → DockerOp Object → Answer Object
  pub exists_container : Log Object → Text → Answer Bool
  pub exists_image : Log Object → Text → Answer Bool
  pub ran : Log Object → List Text → Answer Ran
  pub text_of : Text → Object
  pub bool_of : Bool → Object
  pub pair_of : Text → Text → Object
  pub nothing : Object
  pub spec_or_id : Object → Text
  pub image : Object → Text
  pub tag : Object → Text
  pub command_line : Object → Text
  pub command : Object → List Text
  pub spec_or_digest : Object → Text
  pub is_ip : Text → Bool
  pub is_valid : Handler → Object → Bool

module _ {Object : Type 0} (docker : Docker Object) (allow_exec : Bool) where
  unfoldable pub ask :
      {A : Type 0} → DockerOp Object → (Log Object → Answer A) → Exec (Log Object) A
  ask request answer log = (outcome (answer log), request ∷ log)

  unfoldable pub perform : DockerOp Object → Exec (Log Object) Object
  unfolding ask
  perform request = ask request (λ log. docker.perform log request)

  abbrev not_found : {A : Type 0} → Exec (Log Object) A
  not_found = raise (invalid (codes "404"))

  -- `Depends(is_exists)` of containers and `await is_exists(…)` of images.
  unfoldable pub require_container : Text → Exec (Log Object) (Unit {0})
  unfolding ask
  require_container name_or_id = do
    found ← ask (has_container name_or_id) (λ log. docker.exists_container log name_or_id)
    if found then pure tt else not_found

  unfoldable pub require_image : Text → Exec (Log Object) (Unit {0})
  unfolding ask
  require_image spec_or_id = do
    found ← ask (has_image spec_or_id) (λ log. docker.exists_image log spec_or_id)
    if found then pure tt else not_found

  -- The body is validated once the dependencies are met.
  unfoldable pub require_body : Handler → Object → Exec (Log Object) (Unit {0})
  require_body handler body =
      if docker.is_valid handler body then pure tt else raise (invalid (codes "422"))

  -- The schema of commands has the validator of shared/schemas/command_validator.py.
  unfoldable pub require_command : Object → Exec (Log Object) (Unit {0})
  require_command body =
      if command_validator docker.is_ip (docker.command body)
      then pure tt
      else raise (invalid (codes "422"))

  abbrev run_result : Ran → Object
  run_result no_output = docker.pair_of [] []
  run_result (output text) = docker.pair_of text []
  run_result (two_outputs out err) = docker.pair_of out err
  run_result (other_output as_text) = docker.pair_of as_text []

  -- public_api.py, common_api.py, manifest_api.py, network_api.py and command_api.py
  unfoldable pub health_text : Exec (Log Object) Object
  unfolding perform
  health_text = do perform info; pure (docker.text_of (codes "OK"))

  unfoldable pub docker_version : Exec (Log Object) Object
  unfolding perform
  docker_version = perform version

  unfoldable pub manifest_of : (query : Object) → Exec (Log Object) Object
  unfolding perform require_body
  manifest_of query = do
    require_body imagetools_inspect query
    perform (manifest_inspect (docker.spec_or_digest query))

  unfoldable pub disconnect_of : (body : Object) → Exec (Log Object) Object
  unfolding perform require_body
  disconnect_of body = do
    require_body disconnect body
    perform (disconnect_network body)
    pure docker.nothing

  unfoldable pub run_of : (body : Object) → Exec (Log Object) Object
  unfolding ask require_body require_command
  run_of body = do
    require_body run body
    require_command body
    res ← ask (docker_run (docker.command body)) (λ log. docker.ran log (docker.command body))
    pure (run_result res)

  -- image_api.py
  unfoldable pub inspect_of : (body : Object) → Exec (Log Object) Object
  unfolding perform require_body require_image
  inspect_of body = do
    require_body image_inspect body
    require_image (docker.spec_or_id body)
    perform (inspect_image (docker.spec_or_id body))

  unfoldable pub with_body : Handler → (body : Object) → DockerOp Object → Exec (Log Object) Object
  unfolding perform require_body
  with_body handler body request = do require_body handler body; perform request

  unfoldable pub tag_of : (body : Object) → Exec (Log Object) Object
  unfolding perform require_body require_image
  tag_of body = do
    require_body image_tag body
    require_image (docker.spec_or_id body)
    perform (tag_image (docker.spec_or_id body) (docker.tag body))

  -- A handler with its path parameter, its body and its query.
  unfoldable pub handle :
      Handler → (name_or_id : Text) → (body query : Object) → Exec (Log Object) Object
  unfolding perform require_container require_body ask health_text docker_version manifest_of
      disconnect_of run_of inspect_of with_body tag_of
  handle health name body query = health_text
  handle access name body query = pure (docker.text_of (codes "OK"))
  handle get_version name body query = docker_version
  handle imagetools_inspect name body query = manifest_of query
  handle list name body query = with_body list body (list_containers body)
  handle exists name body query = do
    found ← ask (has_container name) (λ log. docker.exists_container log name)
    pure (docker.bool_of found)
  handle inspect name body query = do require_container name; perform (inspect_container name)
  handle create name body query = with_body create body (create_container body)
  handle (op o) name body query = do
    require_container name
    perform (run_op o name)
    pure (docker.text_of name)
  handle logs name body query = do
    require_container name
    with_body logs body (container_logs name body)
  handle exec_command name body query = do
    require_container name
    require_body exec_command body
    if allow_exec
        then perform (execute name (docker.command_line body))
        else raise (invalid (codes "403"))
  handle image_inspect name body query = inspect_of body
  handle image_list name body query = with_body image_list body (list_images body)
  handle image_prune name body query = with_body image_prune body (prune_images body)
  handle image_pull name body query = with_body image_pull body (pull_image (docker.image body))
  handle image_tag name body query = tag_of body
  handle run name body query = run_of body
  handle disconnect name body query = disconnect_of body
