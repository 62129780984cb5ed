-- ===== src/ActionResult.antt =====
-- The results of the core: backend/core/action_result.py.
use tugtainer.Base.{ℕ, Option, none, List, [], Text}
use tugtainer.Docker.{Container, Image}

-- The type's `None` is `none` of an `Option Outcome`.
pub data Outcome : Type 0 where
  not_available available available_notified updated rolled_back failed : Outcome

pub record ContainerActionResult : Type 0 where
  pub container : Container
  pub result : Option Outcome
  pub image_spec : Option Text
  pub local_image : Option Image
  pub remote_image : Option Image
  pub local_digests : List Text
  pub remote_digests : List Text

-- `ContainerActionResult(container)`, with the defaults of the other fields.
abbrev pub new_result : Container → ContainerActionResult
new_result c = record {
  container = c;
  result = none;
  image_spec = none;
  local_image = none;
  remote_image = none;
  local_digests = [];
  remote_digests = [];
}

pub record UpdatePlanResult : Type 0 where
  pub host_id : ℕ
  pub host_name : Text
  pub items : List ContainerActionResult

pub record HostActionResult : Type 0 where
  pub host_id : ℕ
  pub host_name : Text
  pub items : List ContainerActionResult
  pub prune_result : Option Text
