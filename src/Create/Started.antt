-- ===== src/Create/Started.antt =====
-- What runs in the container that backend/core/container_util/container_config.py describes: the process of
-- the container that it was made from.
use tugtainer.Base.{
  ◌≡◌, inl, inr, Bool-cases, refl, ◌∙◌, ap, arith, Bool, true, false, not, ◌&&◌, ◌||◌, Option, none,
  some, List, [], ◌++◌, ◌∷◌, Text, Dict, codes, lookup, ◌==◌, strip, is_empty as is_empty_text,
}
use tugtainer.Docker.{Container, Image}
use tugtainer.Net.{NetKwargs, config_of, get_container_net_kwargs}
use tugtainer.Exec.{Answer, value, error}
use tugtainer.Value.{
  Value, text, texts, opt_text, opt_texts, is_none_left, is_empty, drop_empty_keys,
}
use tugtainer.Value.Kept.{kept_value, lookup-drop_empty_keys}
use tugtainer.Create.Process.{
  Process, to_list, image_config, image_entrypoint, image_cmd, same_list, same_list_iff, process_of,
}
use tugtainer.Create.Dictionary.{config_dict}
use tugtainer.Create.Looked.{
  config_dict-IsDict, lookup-config_dict-entrypoint, lookup-config_dict-command,
}
use tugtainer.Create.{
  Pydantic, Body, model_validate, model_dump, with_commands, get_container_config,
}
use tugtainer.Create.Schema.{
  FieldType, str_type, str_list, fields, fits_given, lookup-model_validate,
}

-- docker's rule: an entrypoint that is given sets the image's command aside, a command that is given takes
-- the place of the image's.
abbrev command_or : Option (List Text) → List Text → List Text
command_or none cmd = cmd
command_or (some given) cmd = given

abbrev pub started : (image_entrypoint image_cmd : List Text) → Process → List Text
started image_entrypoint image_cmd p = elim p.entrypoint [
  | none ↦ image_entrypoint ++ command_or p.command image_cmd
  | some entrypoint ↦ entrypoint ∷ command_or p.command []
]

-- What a dictionary asks for under "entrypoint" and "command": nothing, where the value is empty.
abbrev as_text : Option Value → Option Text
as_text (some (text s)) = some s
as_text _ = none

abbrev as_texts : Option Value → Option (List Text)
as_texts (some (texts l)) = some l
as_texts _ = none

abbrev pub asked : Dict Value → Process
asked cfg = record {
  entrypoint = as_text (kept_value (lookup (codes "entrypoint") cfg));
  command = as_texts (kept_value (lookup (codes "command") cfg));
}

-- The entrypoint can be said on the command line: its head is not blank, or there is none and the image
-- has none, and then the command is not blank unless the image's is.
abbrev pub can_be_said : (entrypoint cmd image_entrypoint image_cmd : List Text) → Bool
can_be_said [] cmd image_entrypoint image_cmd =
    is_none_left image_entrypoint && (not (is_none_left cmd) || is_none_left image_cmd)
can_be_said (head ∷ extra) cmd image_entrypoint image_cmd = not (is_empty_text (strip head))

-- What is left of a process once empty values are dropped.
abbrev left_of : Process → Process
left_of p = record {
  entrypoint = as_text (kept_value (some (opt_text p.entrypoint)));
  command = as_texts (kept_value (some (opt_texts p.command)));
}

changed_started :
    (ep cmd iep icmd : List Text)
    → can_be_said ep cmd iep icmd ≡ true
    → (same_list ep iep && same_list cmd icmd) ≡ false
    → started iep icmd (left_of (process_of ep cmd iep icmd)) ≡ ep ++ cmd
unfolding process_of is_empty
changed_started [] [] [] [] h d = ground arith
changed_started [] [] [] (y ∷ icmd) h d = ground arith
changed_started [] (c ∷ cmd) [] icmd h d = ground arith
changed_started [] cmd (i ∷ iep) icmd h d = ground arith
changed_started (head ∷ []) [] iep icmd h d = ground arith
changed_started (head ∷ []) (c ∷ cmd) iep icmd h d = ground arith
changed_started (head ∷ x ∷ extra) cmd iep icmd h d = ground arith

same_started :
    (ep cmd iep icmd : List Text)
    → (same_list ep iep && same_list cmd icmd) ≡ true
    → started iep icmd (left_of (process_of ep cmd iep icmd)) ≡ ep ++ cmd
unfolding process_of
same_started ep cmd iep icmd h = ground (arith, same_list_iff ep iep, same_list_iff cmd icmd)

process_started :
    (ep cmd iep icmd : List Text)
    → (same_list ep iep && same_list cmd icmd || can_be_said ep cmd iep icmd) ≡ true
    → started iep icmd (left_of (process_of ep cmd iep icmd)) ≡ ep ++ cmd
process_started ep cmd iep icmd h = elim (Bool-cases (same_list ep iep && same_list cmd icmd)) [
  | inl same ↦ same_started ep cmd iep icmd same
  | inr changed ↦ changed_started ep cmd iep icmd (ground arith) changed
]

entrypoint_field : lookup (codes "entrypoint") fields ≡ some str_type
unfolding fields lookup ◌==◌
entrypoint_field = refl

command_field : lookup (codes "command") fields ≡ some str_list
unfolding fields lookup ◌==◌
command_field = refl

kept_twice : (v : Option Value) → kept_value (kept_value v) ≡ kept_value v
kept_twice none = refl
kept_twice (some v) = ground arith

value_of_commands :
    {A : Type 0} {body : A} (cs commands : List (List Text)) (a : Answer A)
    → with_commands cs a ≡ value (body, commands)
    → a ≡ value body
value_of_commands cs commands (value b) h = ground arith
value_of_commands cs commands (error e) h = cc

module _ (pydantic : Pydantic) (container : Container) (image : Option Image)
    (is_old_api : Bool) where
  abbrev net : NetKwargs
  net = (get_container_net_kwargs container is_old_api).0

  fits_text :
      (o : Option Text) → fits_given pydantic str_type (kept_value (some (opt_text o))) ≡ true
  unfolding is_empty
  fits_text none = refl
  fits_text (some s) = ground arith

  fits_texts :
      (o : Option (List Text))
      → fits_given pydantic str_list (kept_value (some (opt_texts o))) ≡ true
  unfolding is_empty
  fits_texts none = refl
  fits_texts (some []) = refl
  fits_texts (some (x ∷ l)) = refl

  abbrev entrypoint : List Text
  entrypoint = to_list (config_of container.config).entrypoint

  abbrev cmd : List Text
  cmd = to_list (config_of container.config).cmd

  pub validated :
      (body : Body) (commands : List (List Text))
      → get_container_config pydantic container image is_old_api ≡ value (body, commands)
      → model_validate pydantic (drop_empty_keys (config_dict container image net)) ≡ value body
  unfolding get_container_config
  validated body commands h = value_of_commands _ commands (model_validate pydantic _) h

  pub dropped :
      (k : Text)
      → lookup k (drop_empty_keys (config_dict container image net))
        ≡ kept_value (lookup k (config_dict container image net))
  dropped k = lookup-drop_empty_keys k _ (config_dict-IsDict container image net)

  -- What is asked for under a field of the class, if the value is of its type.
  pub looked_in :
      (body : Body) (commands : List (List Text)) (k : Text) (t : FieldType)
      → get_container_config pydantic container image is_old_api ≡ value (body, commands)
      → lookup k fields ≡ some t
      → fits_given pydantic t (kept_value (lookup k (config_dict container image net))) ≡ true
      → kept_value (lookup k (model_dump body))
        ≡ kept_value (lookup k (config_dict container image net))
  looked_in body commands k t h field f =
      lookup-model_validate pydantic _ body k t (validated body commands h) field (rw (dropped k) f)
      ∙ ap kept_value (dropped k)
      ∙ kept_twice _

  -- A container that is made anew runs what the old one ran, its entrypoint and then its command, by
  -- docker's rule for what is asked and what the image has: if both are the image's, or if the
  -- entrypoint can be said on the command line.
  pub get_container_config_started :
      (body : Body) (commands : List (List Text))
      → get_container_config pydantic container image is_old_api ≡ value (body, commands)
      → (same_list entrypoint (image_entrypoint (image_config image))
            && same_list cmd (image_cmd (image_config image))
          || can_be_said entrypoint cmd
              (image_entrypoint (image_config image))
              (image_cmd (image_config image)))
        ≡ true
      → started
          (image_entrypoint (image_config image))
          (image_cmd (image_config image))
          (asked (model_dump body))
        ≡ entrypoint ++ cmd
  get_container_config_started body commands h said =
      rw
        (
          looked_in body commands (codes "entrypoint") str_type h entrypoint_field
              (rw (lookup-config_dict-entrypoint container image net) (fits_text _)),
          looked_in body commands (codes "command") str_list h command_field
              (rw (lookup-config_dict-command container image net) (fits_texts _)),
          lookup-config_dict-entrypoint container image net,
          lookup-config_dict-command container image net,
        )
        (process_started entrypoint cmd _ _ said)
