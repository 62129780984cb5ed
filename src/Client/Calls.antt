-- ===== src/Client/Calls.antt =====
-- The requests that the methods of backend/core/agent_client.py make, one constructor for each method.
use tugtainer.Base.{Bool, true, false, Option, none, some, ◌++◌, Text, codes}

-- The methods that take a container and nothing else.
pub data ContainerOp : Type 0 where
  start stop restart kill pause unpause remove : ContainerOp

-- `Object` is a body as it is dumped.
pub data Call (Object : Type 0) : Type 0 where
  health access version : Call Object
  manifest_inspect : (params : Object) → Call Object
  container_list : (body : Object) → Call Object
  container_exists : (name_or_id : Text) → Call Object
  container_inspect : (name_or_id : Text) → Call Object
  container_create : (body : Object) → Call Object
  container_op : ContainerOp → (name_or_id : Text) → Call Object
  container_logs : (name_or_id : Text) → (body : Object) → Call Object
  container_exec : (name_or_id : Text) → (body : Object) → Call Object
  image_inspect : (body : Object) → Call Object
  image_list : (body : Object) → Call Object
  image_prune : (body : Object) → Call Object
  image_pull : (body : Object) → Call Object
  image_tag : (body : Object) → Call Object
  command_run : (body : Object) → Call Object
  network_disconnect : (body : Object) → Call Object

-- The arguments of `_request`: `is_long` is whether the long timeout is passed.
pub record Request (Object : Type 0) : Type 0 where
  pub method : Text
  pub path : Text
  pub body : Option Object
  pub params : Option Object
  pub is_long : Bool

abbrev pub op_method : ContainerOp → Text
op_method remove = codes "DELETE"
op_method op = codes "POST"

abbrev pub op_path : ContainerOp → Text
op_path start = codes "/api/container/start/"
op_path stop = codes "/api/container/stop/"
op_path restart = codes "/api/container/restart/"
op_path kill = codes "/api/container/kill/"
op_path pause = codes "/api/container/pause/"
op_path unpause = codes "/api/container/unpause/"
op_path remove = codes "/api/container/remove/"

module _ {Object : Type 0} where
  abbrev get : Text → Request Object
  get path = record {
    method = codes "GET";
    path = path;
    body = none;
    params = none;
    is_long = false;
  }

  abbrev post : Text → Object → Bool → Request Object
  post path body is_long = record {
    method = codes "POST";
    path = path;
    body = some body;
    params = none;
    is_long = is_long;
  }

  unfoldable pub request_of : Call Object → Request Object
  request_of health = get (codes "/api/public/health")
  request_of access = get (codes "/api/public/access")
  request_of version = get (codes "/api/common/version")
  request_of (manifest_inspect params) = record (get (codes "/api/manifest/inspect")) {
    params = some params;
    is_long = true;
  }
  request_of (container_list body) = post (codes "/api/container/list") body false
  request_of (container_exists name_or_id) = get (codes "/api/container/exists/" ++ name_or_id)
  request_of (container_inspect name_or_id) = get (codes "/api/container/inspect/" ++ name_or_id)
  request_of (container_create body) = post (codes "/api/container/create") body true
  request_of (container_op op name_or_id) = record {
    method = op_method op;
    path = op_path op ++ name_or_id;
    body = none;
    params = none;
    is_long = true;
  }
  request_of (container_logs name_or_id body) =
      post (codes "/api/container/logs/" ++ name_or_id) body true
  request_of (container_exec name_or_id body) =
      post (codes "/api/container/exec/" ++ name_or_id) body true
  request_of (image_inspect body) = record (get (codes "/api/image/inspect")) { body = some body }
  request_of (image_list body) = post (codes "/api/image/list") body false
  request_of (image_prune body) = post (codes "/api/image/prune") body true
  request_of (image_pull body) = post (codes "/api/image/pull") body true
  request_of (image_tag body) = post (codes "/api/image/tag") body false
  request_of (command_run body) = post (codes "/api/command/run") body true
  request_of (network_disconnect body) = post (codes "/api/network/disconnect") body false
