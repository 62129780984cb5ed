-- ===== src/Agent.antt =====
-- The agent as the backend sees it through backend/core/agent_client.py: each request is written to a
-- log, and the answer of the agent is a parameter that may depend on all requests before it.
use tugtainer.Base.{ℕ, Text, List, ◌∷◌, Bool, Option}
use tugtainer.Docker.{Container, Image}
use tugtainer.Exec.{Answer, outcome, Exec}

-- The requests, and the waits between them. `Config` is what a container is created from.
pub data Call (Config : Type 0) : Type 0 where
  inspect : Text → Call Config
  exists_ : Text → Call Config
  stop : Text → Call Config
  start : Text → Call Config
  remove : Text → Call Config
  create : Config → Call Config
  exec : Text → Text → Call Config
  disconnect : Text → Text → Bool → Call Config
  inspect_image : Text → Call Config
  pull_image : Text → Call Config
  tag_image : Text → Text → Call Config
  run_command : List Text → Call Config
  version : Call Config
  list_containers : Call Config
  prune_images : (all : Bool) → Call Config
  sleep : Call Config

-- The requests so far, the last one first.
abbrev pub Log : Type 0 → Type 0
Log Config = List (Call Config)

-- The answers: what the agent returns or raises after the requests of the log. `clock` is
-- `time.time()` in seconds.
pub record Agent (Config : Type 0) : Type 0 where
  pub inspected : Log Config → Text → Answer Container
  pub found : Log Config → Text → Answer Bool
  pub stopped : Log Config → Text → Answer (Unit {0})
  pub started : Log Config → Text → Answer (Unit {0})
  pub removed : Log Config → Text → Answer (Unit {0})
  pub created : Log Config → Config → Answer Container
  pub executed : Log Config → Text → Text → Answer (Unit {0})
  pub disconnected : Log Config → Text → Text → Bool → Answer (Unit {0})
  pub image_inspected : Log Config → Text → Answer Image
  pub image_pulled : Log Config → Text → Answer Image
  pub image_tagged : Log Config → Text → Text → Answer (Unit {0})
  pub command_run : Log Config → List Text → Answer (Unit {0})
  pub clock : Log Config → ℕ

-- What is asked once for a host: whether its docker client speaks an API older than 1.44, its containers,
-- and to prune its images.
pub record HostAgent (Config : Type 0) : Type 0 where
  pub agent : Agent Config
  pub versioned : Log Config → Answer Bool
  pub listed : Log Config → Answer (List Container)
  pub pruned : Log Config → (all : Bool) → Answer Text

-- A request is logged, and its answer is passed on.
unfoldable pub request :
    {Config A : Type 0} → Call Config → (Log Config → Answer A) → Exec (Log Config) A
request call answer log = (outcome (answer log), call ∷ log)

-- What `create` takes and how it is made: backend/core/container_util/container_config.py.
pub record Configs : Type 1 where
  pub Config : Type 0
  pub get_container_config : Container → Option Image → Answer (Config × List (List Text))
  pub diff_container_config_with_image : Config → Image → Answer Config
