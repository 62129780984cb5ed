-- ===== src/Create/Looked.antt =====
-- What stands under the keys of the dictionary of Create/Dictionary, and of what is sent of it.
use tugtainer.Base.{
  ◌≡◌, refl, true, Option, none, some, [], Dict, codes, lookup, ◌==◌, keys, elem, or_else,
}
use tugtainer.Docker.{Container, Image}
use tugtainer.Inspect.{HealthCheck}
use tugtainer.Net.{NetKwargs, config_of}
use tugtainer.Value.{Value, dict, opt_text, opt_texts}
use tugtainer.Value.Kept.{is_dict}
use tugtainer.Create.Fields.{
  map_healthcheck_to_kwargs, map_log_config_to_kwargs, filter_cli_safe_labels,
}
use tugtainer.Create.Process.{Process}
use tugtainer.Create.Dictionary.{config_dict, assembled, process_from}

module _ (container : Container) (image : Option Image) (net : NetKwargs) where
  abbrev cfg : Dict Value
  cfg = config_dict container image net

  abbrev process : Process
  process = process_from (config_of container.config) image

  assembled-IsDict :
      (h : Option HealthCheck)
      → is_dict (assembled container image net (map_healthcheck_to_kwargs h)) ≡ true
  unfolding map_healthcheck_to_kwargs map_log_config_to_kwargs elem keys ◌==◌
  assembled-IsDict none = refl
  assembled-IsDict (some h) = refl

  pub config_dict-IsDict : is_dict cfg ≡ true
  unfolding config_dict
  config_dict-IsDict = assembled-IsDict (config_of container.config).healthcheck

  pub lookup-config_dict-entrypoint :
      lookup (codes "entrypoint") cfg ≡ some (opt_text process.entrypoint)
  unfolding config_dict lookup ◌==◌
  lookup-config_dict-entrypoint = refl

  pub lookup-config_dict-command : lookup (codes "command") cfg ≡ some (opt_texts process.command)
  unfolding config_dict lookup ◌==◌
  lookup-config_dict-command = refl

  labels-assembled :
      (h : Option HealthCheck)
      → lookup (codes "labels") (assembled container image net (map_healthcheck_to_kwargs h))
        ≡ some (dict (filter_cli_safe_labels (or_else (config_of container.config).labels [])).0)
  unfolding map_healthcheck_to_kwargs lookup ◌==◌
  labels-assembled none = refl
  labels-assembled (some h) = refl

  pub lookup-config_dict-labels :
      lookup (codes "labels") cfg
      ≡ some (dict (filter_cli_safe_labels (or_else (config_of container.config).labels [])).0)
  unfolding config_dict
  lookup-config_dict-labels = labels-assembled (config_of container.config).healthcheck
