-- ===== src/Create/Labels.antt =====
-- The labels of a container that backend/core/container_util/container_config.py describes anew, on the image
-- that it is created from.
use tugtainer.Base.{
  ◌≡◌, refl, ◌∙◌, ap, arith, Bool, true, false, Option, none, some, is_some, List, [], ◌∷◌, Text,
  Dict, codes, lookup, lookup-put, keys, elem, or_else, ◌==◌, eq_iff, if◌then◌else◌,
}
use tugtainer.Docker.{Container, Image}
use tugtainer.Inspect.{ImageConfig}
use tugtainer.Net.{config_of}
use tugtainer.Exec.{value}
use tugtainer.Value.{Value, dict, is_empty, drop_empty_keys, subtract_dict}
use tugtainer.Value.Kept.{
  is_dict, kept_value, lookup-drop_empty_keys, put-IsDict, lookup-subtract_dict,
}
use tugtainer.Create.Fields.{is_safe, filter_cli_safe_labels}
use tugtainer.Create.Looked.{lookup-config_dict-labels}
use tugtainer.Create.{
  Pydantic, Body, model_validate, model_dump, labels_in, without_labels, get_container_config,
  diff_container_config_with_image,
}
use tugtainer.Create.Schema.{
  str_dict, fields, fits_given, lookup-model_validate, model_validate-IsDict,
}
use tugtainer.Create.Started.{validated, looked_in}

-- The labels that a dictionary asks for.
abbrev as_dict : Option Value → Dict Text
as_dict (some (dict d)) = d
as_dict _ = []

abbrev pub labels_asked : Dict Value → Dict Text
labels_asked cfg = as_dict (kept_value (lookup (codes "labels") cfg))

-- docker's rule: a label that is asked for comes before the image's.
abbrev pub label_of : Text → Dict Text → Dict Text → Option Text
label_of k asked image = if is_some (lookup k asked) then lookup k asked else lookup k image

pub lookup-accepted :
    (k : Text) (labels : Dict Text)
    → lookup k (filter_cli_safe_labels labels).0 ≡ (if is_safe k then lookup k labels else none)
unfolding filter_cli_safe_labels lookup
lookup-accepted k [] = ground arith
lookup-accepted k ((j, v) ∷ labels) =
    ground (arith, lookup-accepted k labels, eq_iff j k, (λ (p : j ≡ k). ap {B = Bool} is_safe p))

elem-accepted :
    (k : Text) (labels : Dict Text)
    → elem k (keys labels) ≡ false
    → elem k (keys (filter_cli_safe_labels labels).0) ≡ false
unfolding filter_cli_safe_labels keys elem
elem-accepted k [] h = refl
elem-accepted k ((j, v) ∷ labels) h = ground (arith, elem-accepted k labels)

accepted-IsDict :
    (labels : Dict Text) → is_dict labels ≡ true → is_dict (filter_cli_safe_labels labels).0 ≡ true
unfolding filter_cli_safe_labels keys elem
accepted-IsDict [] h = refl
accepted-IsDict ((j, v) ∷ labels) h = ground (arith, accepted-IsDict labels, elem-accepted j labels)

-- However an empty dictionary of labels is told.
found_in :
    (k : Text) (raw : Option Value) (image : Option (Dict Text))
    → is_dict (as_dict (kept_value raw)) ≡ true
    → lookup k (or_else (subtract_dict (labels_in raw) image) []) ≡ (
        if is_some (lookup k (or_else image [])) then none else lookup k (as_dict (kept_value raw)))
unfolding subtract_dict lookup is_empty
found_in k (some (dict [])) image d = ground arith
found_in k (some (dict (x ∷ l))) image d = lookup-subtract_dict k (x ∷ l) image d
found_in k raw image d = ground arith

labels_field : lookup (codes "labels") fields ≡ some str_dict
unfolding fields lookup ◌==◌
labels_field = refl

labels_kept : (labels : Dict Text) → as_dict (kept_value (some (dict labels))) ≡ labels
unfolding is_empty
labels_kept [] = refl
labels_kept (x ∷ labels) = refl

merged :
    (a b : Option Text)
    → (if is_some (if is_some b then none else a) then (if is_some b then none else a) else b)
      ≡ (if is_some b then b else a)
merged none none = refl
merged (some s) none = refl
merged a (some t) = refl

labels_kept_twice :
    (labels : Dict Text) → as_dict (kept_value (kept_value (some (dict labels)))) ≡ labels
unfolding is_empty
labels_kept_twice [] = refl
labels_kept_twice (x ∷ labels) = refl

module _ (pydantic : Pydantic) (container : Container) (image new_image : Image) (is_old_api : Bool)
    (config : ImageConfig) where
  fits_dict : (d : Dict Text) → fits_given pydantic str_dict (kept_value (some (dict d))) ≡ true
  unfolding is_empty
  fits_dict [] = refl
  fits_dict (x ∷ d) = refl

  abbrev labels : Dict Text
  labels = or_else (config_of container.config).labels []

  abbrev accepted : Dict Text
  accepted = (filter_cli_safe_labels labels).0

  first_labels :
      (body : Body) (commands : List (List Text))
      → get_container_config pydantic container (some image) is_old_api ≡ value (body, commands)
      → labels_asked (model_dump body) ≡ accepted
  first_labels body commands h =
      ap as_dict (
        looked_in pydantic container (some image) is_old_api body commands (codes "labels") str_dict
          h labels_field
          (rw (lookup-config_dict-labels container (some image) _) (fits_dict accepted))
        ∙ ap kept_value (lookup-config_dict-labels container (some image) _))
      ∙ labels_kept accepted

  diffed :
      (body body' : Body)
      → new_image.config ≡ some config
      → diff_container_config_with_image pydantic body new_image ≡ value body'
      → model_validate pydantic (drop_empty_keys (without_labels (model_dump body) config))
        ≡ value body'
  unfolding diff_container_config_with_image
  diffed body body' c h = ground (arith, c, h)

  without_labels-IsDict :
      (body : Body) (commands : List (List Text))
      → get_container_config pydantic container (some image) is_old_api ≡ value (body, commands)
      → is_dict (without_labels (model_dump body) config) ≡ true
  unfolding without_labels
  without_labels-IsDict body commands h = put-IsDict (codes "labels") _ (model_dump body) (
      model_validate-IsDict pydantic _ body
        (validated pydantic container (some image) is_old_api body commands h))

  put_labels :
      (b : Body)
      → lookup (codes "labels") (without_labels (model_dump b) config)
        ≡ some (
            dict (
              or_else
                (subtract_dict (labels_in (lookup (codes "labels") (model_dump b))) config.labels)
                []))
  unfolding without_labels ◌==◌
  put_labels b = lookup-put (codes "labels") (codes "labels") _ (model_dump b)

  second_labels :
      (body body' : Body) (commands : List (List Text))
      → get_container_config pydantic container (some image) is_old_api ≡ value (body, commands)
      → new_image.config ≡ some config
      → diff_container_config_with_image pydantic body new_image ≡ value body'
      → labels_asked (model_dump body')
        ≡ or_else
            (subtract_dict (labels_in (lookup (codes "labels") (model_dump body))) config.labels)
            []
  second_labels body body' commands made c h =
      let dropped : lookup (codes "labels")
            (drop_empty_keys (without_labels (model_dump body) config))
          ≡ kept_value (
              some (
                dict (
                  or_else
                    (subtract_dict (labels_in (lookup (codes "labels") (model_dump body)))
                      config.labels)
                    []))) =
        lookup-drop_empty_keys (codes "labels") _ (without_labels-IsDict body commands made)
        ∙ ap kept_value (put_labels body) in
      ap as_dict (
        lookup-model_validate pydantic _ body' (codes "labels") str_dict (diffed body body' c h)
          labels_field (rw dropped (fits_dict _))
        ∙ ap kept_value dropped)
      ∙ labels_kept_twice _

  -- A container that is described anew and adjusted to an image has, by docker's rule, each label of that
  -- image as the image has it, each other label that the old container had and the CLI takes, and no
  -- other label.
  pub diff_container_config_with_image_labels :
      (body body' : Body) (commands : List (List Text)) (k : Text)
      → is_dict labels ≡ true
      → get_container_config pydantic container (some image) is_old_api ≡ value (body, commands)
      → new_image.config ≡ some config
      → diff_container_config_with_image pydantic body new_image ≡ value body'
      → label_of k (labels_asked (model_dump body')) (or_else config.labels []) ≡ (
          if is_some (lookup k (or_else config.labels []))
          then lookup k (or_else config.labels [])
          else (if is_safe k then lookup k labels else none))
  diff_container_config_with_image_labels body body' commands k d made c h =
      let first = first_labels body commands made in
      rw
        (
          second_labels body body' commands made c h,
          found_in k (lookup (codes "labels") (model_dump body)) config.labels
              (rw first (accepted-IsDict labels d)),
          first,
          lookup-accepted k labels,
        )
        (merged (if is_safe k then lookup k labels else none) (lookup k (or_else config.labels [])))
