-- ===== src/Create/Process.antt =====
-- The entrypoint, the command and the working directory of backend/core/container_util/container_config.py.
use tugtainer.Base.{
  ◌≡◌, refl, arith, ◌↔◌, Bool, true, false, not, ◌&&◌, Option, none, some, List, [], ◌∷◌, ◌++◌,
  Text, ◌==◌, eq_iff, is_empty, if◌then◌else◌,
}
use tugtainer.Inspect.{FilePath, Command, one, many, Image, ImageConfig}
use tugtainer.Create.Fields.{normalize_path}

-- `a == b`, of two lists of texts.
unfoldable pub same_list : List Text → List Text → Bool
same_list [] [] = true
same_list [] (y ∷ ys) = false
same_list (x ∷ xs) [] = false
same_list (x ∷ xs) (y ∷ ys) = x == y && same_list xs ys

pub same_list_iff : (xs ys : List Text) → (same_list xs ys ≡ true) ↔ (xs ≡ ys)
unfolding same_list
same_list_iff [] [] = ((λ _. refl), (λ _. refl))
same_list_iff [] (y ∷ ys) = ground arith
same_list_iff (x ∷ xs) [] = ground arith
same_list_iff (x ∷ xs) (y ∷ ys) = ground (arith, eq_iff x y, same_list_iff xs ys)

-- _to_list
abbrev pub to_list : Option Command → List Text
to_list none = []
to_list (some (one val)) = if is_empty val then [] else val ∷ []
to_list (some (many val)) = val

abbrev pub image_config : Option Image → Option ImageConfig
image_config none = none
image_config (some image) = image.config

abbrev pub image_entrypoint : Option ImageConfig → List Text
image_entrypoint none = []
image_entrypoint (some config) = to_list config.entrypoint

abbrev pub image_cmd : Option ImageConfig → List Text
image_cmd none = []
image_cmd (some config) = to_list config.cmd

-- What is passed as `entrypoint` and `command`.
pub record Process : Type 0 where
  pub entrypoint : Option Text
  pub command : Option (List Text)

-- The CLI takes one text as the entrypoint: its other parts move to the start of the command.
abbrev changed_process : (entrypoint cmd : List Text) → Process
changed_process [] cmd = record { entrypoint = none; command = some cmd }
changed_process (head ∷ extra) cmd = record {
  entrypoint = some head;
  command = some (extra ++ cmd);
}

unfoldable pub process_of :
    (entrypoint cmd : List Text) → (image_entrypoint image_cmd : List Text) → Process
unfolding same_list
process_of entrypoint cmd image_entrypoint image_cmd =
    if not (same_list entrypoint image_entrypoint && same_list cmd image_cmd)
    then changed_process entrypoint cmd
    else record { entrypoint = none; command = none }

abbrev same_path : Option FilePath → Option FilePath → Bool
same_path none none = true
same_path none (some b) = false
same_path (some a) none = false
same_path (some a) (some b) = a.path == b.path

-- The working directory is passed where it is not the image's.
unfoldable pub workdir_of : Option ImageConfig → Option FilePath → Option Text
unfolding normalize_path
workdir_of none dir = none
workdir_of (some config) dir = if same_path config.working_dir dir then none else normalize_path dir
