-- ===== src/Create.antt =====
-- backend/core/container_util/container_config.py: from an inspected container to what a container is
-- created from. The children are the mappers that it calls, and the dictionary that it makes of them.
pub mod Fields
pub mod Process
pub mod Gpus
pub mod Mounts
pub mod Dictionary
pub mod Schema
pub mod Looked
pub mod Started
pub mod Labels
use tugtainer.Base.{
  ◌≡◌, Bool, true, Option, none, some, List, [], Text, Dict, codes, lookup, put, or_else,
}
use tugtainer.Docker.{Container, Image}
use tugtainer.Inspect.{ImageConfig}
use tugtainer.Net.{get_container_net_kwargs}
use tugtainer.Exec.{Answer, value, error}
use tugtainer.Agent.{Configs}
use tugtainer.Value.{Value, null, dict, drop_empty_keys, subtract_dict}
use tugtainer.Value.Kept.{is_dict, kept_value}
use tugtainer.Create.Dictionary.{config_dict}
pub use Schema.{Pydantic, Body, model_dump}
unfoldable pub use Schema.{model_validate}

abbrev pub with_commands :
    {Body : Type 0} → List (List Text) → Answer Body → Answer (Body × List (List Text))
with_commands commands (value body) = value (body, commands)
with_commands commands (error e) = error e

-- `cfg_dict.get("labels", {})`, which is none where no labels were set.
abbrev pub labels_in : Option Value → Option (Dict Text)
labels_in none = some []
labels_in (some (dict d)) = some d
labels_in (some _) = none

-- `cfg_dict` once the labels of the image are taken out.
unfoldable pub without_labels : Dict Value → ImageConfig → Dict Value
unfolding subtract_dict
without_labels cfg_dict config =
    put (codes "labels")
      (dict
        (or_else (subtract_dict (labels_in (lookup (codes "labels") cfg_dict)) config.labels) []))
      cfg_dict

module _ (pydantic : Pydantic) where
  -- The version of docker's API enters by the one test that is made of it.
  unfoldable pub get_container_config :
      Container → Option Image → (is_old_api : Bool) → Answer (Body × List (List Text))
  unfolding model_validate
  get_container_config container image is_old_api =
      let (net, commands) = get_container_net_kwargs container is_old_api in
      with_commands commands
        (model_validate pydantic (drop_empty_keys (config_dict container image net)))

  abbrev diff_with : Body → Option ImageConfig → Answer Body
  diff_with cfg none = value cfg
  diff_with cfg (some config) =
      model_validate pydantic (drop_empty_keys (without_labels (model_dump cfg) config))

  unfoldable pub diff_container_config_with_image : Body → Image → Answer Body
  unfolding model_validate without_labels
  diff_container_config_with_image cfg remote_image = diff_with cfg remote_image.config

  -- What the update creates containers from.
  abbrev pub configs : (is_old_api : Bool) → Configs
  configs is_old_api = record {
    Config = Body;
    get_container_config = λ container image. get_container_config container image is_old_api;
    diff_container_config_with_image = diff_container_config_with_image;
  }
