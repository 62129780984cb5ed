-- ===== src/Examples/Creates.antt =====
-- A container with an entrypoint and labels of its own, described anew.
use tugtainer.Base.{
  Option, ◌≡◌, refl, true, false, ◌||◌, ◌&&◌, none, some, [], ◌∷◌, Text, Dict, codes, lookup, put,
  ◌==◌, strip, elem, has_char, keys, is_some, if◌then◌else◌,
}
use tugtainer.Docker.{Container, Image, no_config}
use tugtainer.Inspect.{ImageConfig, one, many}
use tugtainer.Net.{get_container_net_kwargs}
use tugtainer.Create.Process.{same_list}
use tugtainer.Net.Ports.{map_port_bindings_to_list}
use tugtainer.Exec.{Answer, value, error}
use tugtainer.Value.{Value, drop_empty_keys, subtract_dict}
use tugtainer.Value.Kept.{is_dict}
use tugtainer.Create.Dictionary.{config_dict}
use tugtainer.Create.{
  Pydantic, Body, model_validate, model_dump, get_container_config, without_labels,
  diff_container_config_with_image,
}
use tugtainer.Create.Schema.{
  FieldType, required_str, str_type, str_list, str_dict, other_type, fits, fields,
}
use tugtainer.Create.Fields.{is_safe}
use tugtainer.Create.Started.{started, asked, can_be_said, get_container_config_started}
use tugtainer.Create.Labels.{labels_asked, label_of, diff_container_config_with_image_labels}
use tugtainer.Examples.Containers.{api}

-- Without coercion: a value of the type, or anything where the model knows no more of the type.
abbrev parsed : FieldType → Value → Option Value
parsed (other_type name) v = some v
parsed t v = if fits t v then some v else none

pub parsed-fits : (t : FieldType) (v : Value) → fits t v ≡ true → parsed t v ≡ some v
parsed-fits required_str v h = rw h refl
parsed-fits str_type v h = rw h refl
parsed-fits str_list v h = rw h refl
parsed-fits str_dict v h = rw h refl
parsed-fits (other_type name) v h = refl

abbrev pub pydantic : Pydantic
pydantic = record { parse = parsed; parse-fits = parsed-fits }

abbrev body_or : Answer Body → Body
body_or (value body) = body
body_or (error e) = []

abbrev server : Container
server = record api {
  config = some (record no_config {
    image = some (codes "web");
    entrypoint = some (many (codes "tini" ∷ codes "--" ∷ []));
    cmd = some (one (codes "serve"));
    labels = some ((codes "a", codes "1") ∷ (codes "b c", codes "2") ∷ []);
  });
}

abbrev config : ImageConfig
config = record {
  entrypoint = some (one (codes "sh"));
  cmd = some (one (codes "help"));
  working_dir = none;
  labels = some ((codes "a", codes "9") ∷ []);
}

abbrev image : Image
image = record { id = none; repo_digests = none; config = some config }

abbrev sent : Dict Value
sent = drop_empty_keys (config_dict server (some image) (get_container_net_kwargs server false).0)

abbrev body : Body
body = body_or (model_validate pydantic sent)

made : get_container_config pydantic server (some image) false ≡ value (body, [])
unfolding get_container_config get_container_net_kwargs drop_empty_keys config_dict model_validate
    fields strip keys elem ◌==◌ lookup map_port_bindings_to_list has_char
made = refl

said :
    (same_list (codes "tini" ∷ codes "--" ∷ []) (codes "sh" ∷ [])
        && same_list (codes "serve" ∷ []) (codes "help" ∷ [])
      || can_be_said
          (codes "tini" ∷ codes "--" ∷ [])
          (codes "serve" ∷ [])
          (codes "sh" ∷ [])
          (codes "help" ∷ []))
    ≡ true
unfolding same_list strip ◌==◌
said = refl

get_container_config_started_example :
    started (codes "sh" ∷ []) (codes "help" ∷ []) (asked (model_dump body))
    ≡ codes "tini" ∷ codes "--" ∷ codes "serve" ∷ []
get_container_config_started_example =
    get_container_config_started pydantic server (some image) false body [] made said

abbrev adjusted : Dict Value
adjusted = drop_empty_keys (without_labels (model_dump body) config)

abbrev body' : Body
body' = body_or (model_validate pydantic adjusted)

diffed : diff_container_config_with_image pydantic body image ≡ value body'
unfolding diff_container_config_with_image without_labels model_validate fields subtract_dict put
    drop_empty_keys config_dict get_container_net_kwargs strip keys elem ◌==◌ lookup
    map_port_bindings_to_list has_char
diffed = refl

two_labels : is_dict {V = Text} ((codes "a", codes "1") ∷ (codes "b c", codes "2") ∷ []) ≡ true
unfolding keys elem ◌==◌
two_labels = refl

diff_container_config_with_image_labels_example :
    label_of (codes "a") (labels_asked (model_dump body')) ((codes "a", codes "9") ∷ []) ≡ (
      if is_some (lookup (codes "a") ((codes "a", codes "9") ∷ []))
      then lookup (codes "a") ((codes "a", codes "9") ∷ [])
      else (if is_safe (codes "a")
          then lookup (codes "a") ((codes "a", codes "1") ∷ (codes "b c", codes "2") ∷ [])
          else none))
diff_container_config_with_image_labels_example =
    diff_container_config_with_image_labels pydantic server image image false config body body' []
      (codes "a") two_labels made refl diffed
