-- ===== src/Lib.antt =====
-- A model of tugtainer, the updater of docker containers, and what it promises.
--
-- The backend (backend/) keeps hosts and containers in a database, asks an agent (agent/) on each host for
-- what runs there, and updates containers for which the registry has a new image. An update of a host has
-- two halves. `build_update_plan` chooses from the inspected containers and the database rows which
-- containers to update, which are affected since they depend on one of those, and in which order they are
-- stopped and started. `execute_update_plan` pulls the images, stops the containers in the reverse order,
-- and then updates each in the order: it removes the container, creates it anew, waits until it is healthy,
-- and rolls back to the old configuration and image if anything goes wrong.
--
-- The parts, by file:
--
-- Base (Tests, Strings, Lists, Dicts, Decimal): Python's `str` as code points, `dict` in insertion order,
-- sets as lists without duplicates, the tests on numbers, and their lemmas.
--
-- Docker, Docker/Labels: the inspected container and the readers of backend/core/container_util
-- (`is_running_container`, `get_container_image_spec`, `get_container_health_status_str`,
-- `is_protected_container`, `get_service_name`) and the labels read by
-- backend/core/update_actions/update_actions_util.py (`get_dependencies`, `get_compose_id`).
--
-- Db: the rows of backend/modules/containers/containers_model.py and backend/modules/hosts/hosts_model.py,
-- as far as the core reads them.
--
-- Graph: the two graph loops of backend/core/update_actions/update_actions_plan.py alone. Graph/Bfs is the
-- loop over `dependables_map` (`visit` is one round), Graph/Dfs the inner function `dfs`. Their child
-- modules prove what they collect, in which order, and when they end.
--
-- The directory Plan has `build_update_plan`. Plan/Select chooses what to update, Plan/Maps builds the
-- dependency maps, and Plan/Build composes them. Plan/Selected, Edges and Members relate the pieces to
-- their descriptions, Plan/Contract and Plan/Ends hold what follows.
--
-- ActionResult: the results of backend/core/action_result.py.
--
-- Exec, Agent: code that mutates, sends requests and raises, as a state monad with exceptions. Exec has the
-- rules by which such code is shown to end, to raise nothing, and to leave things alone (Exec/Laws,
-- Exec/Returns). Agent has the requests of backend/core/agent_client.py that an update sends, with a log of
-- them.
--
-- Progress: backend/core/progress, with the cache of cachetools as an interface (`TtlCache`).
--
-- Check: backend/core/check_actions/check_one_container.py. Check/Verdict has what it concludes from the
-- digests and writes to the row, Check/One the code with its requests and its error path, Check/Row
-- `insert_or_update_container` of backend/modules/containers/containers_util.py. Check/Outcome, Others,
-- Released and Agrees say how a check ends and what it leaves behind. Check/Queue is the filter and the
-- sort of check_actions_util.py, Check/Host the check of a host (check_host_containers.py).
--
-- Inspect: what `docker inspect` shows, as far as the code reads it. Value: the values of the dictionaries
-- that are sent, and backend/util (is_empty, drop_empty_keys, subtract_dict).
--
-- Create: backend/core/container_util/container_config.py. Create/Fields, Gpus and Mounts are the mappers
-- that it calls, Create/Process the entrypoint and the command, Create/Dictionary the dictionary
-- `config_dict`, Create/Schema the fields of `CreateContainerRequestBodySchema`
-- (shared/schemas/container_schemas.py); Create/Started and Labels say what becomes of the process and of
-- the labels. `Create.configs` is what the execution of a plan takes as `Configs`.
--
-- Net, Command: the networks of a container that is made anew
-- (backend/core/container_util/get_container_net_kwargs.py, map_port_bindings_to_list.py), Net/Connected
-- what its commands ask for, read from their arguments, and the validator of the agent that its commands
-- must pass (shared/schemas/command_validator.py).
--
-- Signature: shared/util/signature.py, by which the backend signs its requests and the agent verifies them.
--
-- Update: backend/core/update_actions/update_actions_executor.py. Update/Wait is
-- backend/core/container_util/wait_for_container_healthy.py, Update/Hooks is hooks_executor.py and
-- `disconnect_all_networks`, Update/Item the `UpdatePlanItem` and the shared pieces, Update/Prepare the
-- preparation, Update/Stop the stop, Update/Step one round of the update loop with its rollback,
-- Update/Records `update_containers_data_after_execution`, Update/Run the phases over all items
-- (`execute_update_plan`).
--
-- Hosts: the runs over a host and over all hosts. Hosts/Update is
-- backend/core/update_actions/update_host_containers.py, with what it finds around it in the record
-- `Around`; Hosts/All is the loop of update_all_containers.py and of
-- backend/core/check_actions/check_all_containers.py, whose two functions differ in what they do for a host
-- and in the status meanwhile, and Hosts/All/Visited says what it does as a relation.
--
-- Registry: the request for the digest of an image in check_actions_util.py (`get_image_remote_digest`), a
-- function of whatever the network answers. Registry/Spec reads the name of an image, the insecure
-- registries and the credentials (backend/docker_config.py), Registry/Token where a token is to be asked
-- for, Registry/Exchanges and Explained what the answers say of the outcome. A check takes it as a
-- parameter (`World`).
--
-- Settings: backend/modules/settings. Settings has the typed values, the values in memory
-- (settings_storage.py) and the change by settings_router.py, Settings/Patch what is validated before,
-- Settings/Cron the jobs of backend/core/cron_manager.py, Settings/Synced what a change leaves.
--
-- Auth: backend/modules/auth. Auth/Tokens has the tokens and the cookies (providers/auth_provider.py),
-- Auth/Password and Auth/Oidc the two providers, Auth/Oidc/IdToken the verification of the ID token, Auth
-- the router and `is_authorized` of auth_util.py, and the world that a sequence of requests leads to. jose,
-- bcrypt and the provider of OpenID Connect are parameters (`Jwt`, `Bcrypt`, `Provider`). Auth/Entered has
-- the worlds that can be reached and who is authorized in them, Auth/Entered/Rules the rule for what holds
-- of every answer, Auth/Entered/Lasting how long a session serves.
--
-- Guard: backend/util/validate_url_against_ssrf.py. Guard/Networks has addresses and RESTRICTED_NETWORKS of
-- backend/const.py, Guard/Bounds the same networks as bounds on numbers, Guard/Callers the callers for the
-- URLs of agents (modules/hosts/hosts_util.py) and of notifications (modules/settings/settings_util.py).
--
-- Notify: backend/core/notifications_core.py, with jinja2 and apprise as parameters (`Outside`).
--
-- Client: backend/core/agent_client.py. Client/Calls has the requests of its methods, Client the request
-- (`_request`), Client/Manager the manager of the clients and their sessions (Client/Manager/Sessions:
-- those of clients that are removed). Of its awaits only that of `set_client` lets other operations come
-- between.
--
-- Api: the agent behind HTTP. Api/Handlers are the handlers of agent/api, Api the routes, the dispatch and
-- agent/auth.py, Api/Routed and Served relate them to the client of the backend.
--
-- Examples: inputs, tests, and the results at inputs that meet their conditions.
--
-- How the model reads the code:
--
-- A moment is a number of microseconds, in Auth of seconds, and the clock of the wait a number of seconds.
-- A container's name is never missing, as the code assumes by its casts. Python does not fix the order in
-- which a set is iterated over: it is a parameter (`SetOrder`), and a result about the plan holds for each.
--
-- The answers of the agent are a parameter (`Agent`): a function of all requests before, so the host may
-- change in any way between two requests, and each request may fail. How a configuration is made from a
-- container is an interface (`Configs`) that may raise.
--
-- Loops that Python does not bound run on fuel. `build_update_plan` takes fuel for the rounds of the
-- breadth-first loop and the depth of `dfs`; `none` means that it ran out, and Plan/Ends says when it does
-- not. The wait takes fuel for its rounds, and a result `stuck` that no handler catches means that it ran
-- out; fuel above the timeout in seconds is enough since each round waits five seconds.
--
-- The agent and the registry of a check (`World`) and the database of an execution (`Database`) are
-- parameters of the same kind: each question may be answered by an error.
--
-- Of the libraries, the cache, `ip_address`, the version of the docker client, the HMAC, JSON and `int` of
-- a signature (`Crypto`), and how pydantic reads a value under a type (`Pydantic`) are parameters.
--
-- `urlparse`, `ip_address` and the resolver (`Names`), docker behind the agent (`Docker`) and what HTTP
-- does to a body (`Wire`) are parameters too.
--
-- Not modelled: the HTTP handlers of the backend but those of the settings and of authentication, since
-- they mostly pass on rows of the database, the attributes of the cookies, the time limits of the agent,
-- the migrations, the user interface.
pub mod Base
pub mod Graph
pub mod Value
pub mod Inspect
pub mod Docker
pub mod Db
pub mod Plan
pub mod ActionResult
pub mod Exec
pub mod Progress
pub mod Check
pub mod Command
pub mod Net
pub mod Signature
pub mod Agent
pub mod Create
pub mod Update
pub mod Hosts
pub mod Guard
pub mod Notify
pub mod Client
pub mod Api
pub mod Registry
pub mod Settings
pub mod Auth
mod Examples
