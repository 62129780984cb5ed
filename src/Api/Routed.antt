-- ===== src/Api/Routed.antt =====
-- That each request of backend/core/agent_client.py finds its handler among the routes of agent/api.
use tugtainer.Base.{
  ◌≡◌, refl, arith, true, false, Option, none, some, [], ◌∷◌, Text, codes, ◌==◌, has_char, is_empty,
  split,
}
use tugtainer.Client.Calls
use tugtainer.Client.Calls.{Call, Request, request_of, ContainerOp, op_path, op_method}
use tugtainer.Api.Handlers
use tugtainer.Api.Handlers.{Handler}
use tugtainer.Api.{Route, fixed, named, get, post, routes, dispatch}

-- A name that fits into a path: not empty, and with no slash.
abbrev pub FitsPath : Option Text → Type 0
FitsPath none = Unit {0}
FitsPath (some name) = (is_empty name ≡ false) × (has_char b'/' name ≡ false)

abbrev pub or_empty : Option Text → Text
or_empty none = []
or_empty (some name) = name

split-whole : (name : Text) → has_char b'/' name ≡ false → split b'/' name ≡ name ∷ []
unfolding has_char split
split-whole [] h = refl
split-whole (c ∷ name) h = ground (arith, split-whole name)

module _ {Object : Type 0} where
  -- The handler that a call is for, and the container that it names.
  abbrev pub handler_of : Call Object → Handler
  handler_of Calls.health = Handlers.health
  handler_of Calls.access = Handlers.access
  handler_of Calls.version = Handlers.get_version
  handler_of (Calls.manifest_inspect params) = Handlers.imagetools_inspect
  handler_of (Calls.container_list body) = Handlers.list
  handler_of (Calls.container_exists name) = Handlers.exists
  handler_of (Calls.container_inspect name) = Handlers.inspect
  handler_of (Calls.container_create body) = Handlers.create
  handler_of (Calls.container_op op name) = Handlers.op op
  handler_of (Calls.container_logs name body) = Handlers.logs
  handler_of (Calls.container_exec name body) = Handlers.exec_command
  handler_of (Calls.image_inspect body) = Handlers.image_inspect
  handler_of (Calls.image_list body) = Handlers.image_list
  handler_of (Calls.image_prune body) = Handlers.image_prune
  handler_of (Calls.image_pull body) = Handlers.image_pull
  handler_of (Calls.image_tag body) = Handlers.image_tag
  handler_of (Calls.command_run body) = Handlers.run
  handler_of (Calls.network_disconnect body) = Handlers.disconnect

  abbrev pub name_of : Call Object → Option Text
  name_of (Calls.container_exists name) = some name
  name_of (Calls.container_inspect name) = some name
  name_of (Calls.container_op op name) = some name
  name_of (Calls.container_logs name body) = some name
  name_of (Calls.container_exec name body) = some name
  name_of _ = none

  abbrev pub Routed : Call Object → Type 0
  Routed c =
      (route : Route) × (dispatch (request_of c).method (split b'/' (request_of c).path) routes
        ≡ some (route, or_empty (name_of c)))
      × (route.handler ≡ handler_of c)

op-Routed :
    (Object : Type 0) (op : ContainerOp) (name : Text)
    → is_empty name ≡ false
    → has_char b'/' name ≡ false
    → Routed {Object = Object} (Calls.container_op op name)
unfolding dispatch request_of split routes ◌==◌
op-Routed Object Calls.start name h k =
    rw (split-whole name k, h) (named post (codes "start") (Handlers.op Calls.start), refl, refl)
op-Routed Object Calls.stop name h k =
    rw (split-whole name k, h) (named post (codes "stop") (Handlers.op Calls.stop), refl, refl)
op-Routed Object Calls.restart name h k =
    rw (split-whole name k, h)
      (named post (codes "restart") (Handlers.op Calls.restart), refl, refl)
op-Routed Object Calls.kill name h k =
    rw (split-whole name k, h) (named post (codes "kill") (Handlers.op Calls.kill), refl, refl)
op-Routed Object Calls.pause name h k =
    rw (split-whole name k, h) (named post (codes "pause") (Handlers.op Calls.pause), refl, refl)
op-Routed Object Calls.unpause name h k =
    rw (split-whole name k, h)
      (named post (codes "unpause") (Handlers.op Calls.unpause), refl, refl)
op-Routed Object Calls.remove name h k =
    rw (split-whole name k, h)
      (named (codes "DELETE") (codes "remove") (Handlers.op Calls.remove), refl, refl)

module _ {Object : Type 0} where
  -- Each call is routed to its handler, with the container that it names.
  pub request_of-Routed : (c : Call Object) → FitsPath (name_of c) → Routed c
  unfolding dispatch request_of split routes ◌==◌
  request_of-Routed (Calls.container_exists name) fits =
      rw (split-whole name fits.1, fits.0) (named get (codes "exists") Handlers.exists, refl, refl)
  request_of-Routed (Calls.container_inspect name) fits =
      rw (split-whole name fits.1, fits.0)
        (named get (codes "inspect") Handlers.inspect, refl, refl)
  request_of-Routed (Calls.container_logs name body) fits =
      rw (split-whole name fits.1, fits.0) (named post (codes "logs") Handlers.logs, refl, refl)
  request_of-Routed (Calls.container_exec name body) fits =
      rw (split-whole name fits.1, fits.0)
        (named post (codes "exec") Handlers.exec_command, refl, refl)
  request_of-Routed (Calls.container_op op name) fits = op-Routed Object op name fits.0 fits.1
  request_of-Routed Calls.health fits =
      (fixed false get (codes "public") (codes "health") Handlers.health, refl, refl)
  request_of-Routed Calls.access fits =
      (fixed true get (codes "public") (codes "access") Handlers.access, refl, refl)
  request_of-Routed Calls.version fits =
      (fixed true get (codes "common") (codes "version") Handlers.get_version, refl, refl)
  request_of-Routed (Calls.manifest_inspect params) fits =
      (fixed true get (codes "manifest") (codes "inspect") Handlers.imagetools_inspect, refl, refl)
  request_of-Routed (Calls.container_list body) fits =
      (fixed true post (codes "container") (codes "list") Handlers.list, refl, refl)
  request_of-Routed (Calls.container_create body) fits =
      (fixed true post (codes "container") (codes "create") Handlers.create, refl, refl)
  request_of-Routed (Calls.image_inspect body) fits =
      (fixed true get (codes "image") (codes "inspect") Handlers.image_inspect, refl, refl)
  request_of-Routed (Calls.image_list body) fits =
      (fixed true post (codes "image") (codes "list") Handlers.image_list, refl, refl)
  request_of-Routed (Calls.image_prune body) fits =
      (fixed true post (codes "image") (codes "prune") Handlers.image_prune, refl, refl)
  request_of-Routed (Calls.image_pull body) fits =
      (fixed true post (codes "image") (codes "pull") Handlers.image_pull, refl, refl)
  request_of-Routed (Calls.image_tag body) fits =
      (fixed true post (codes "image") (codes "tag") Handlers.image_tag, refl, refl)
  request_of-Routed (Calls.command_run body) fits =
      (fixed true post (codes "command") (codes "run") Handlers.run, refl, refl)
  request_of-Routed (Calls.network_disconnect body) fits =
      (fixed true post (codes "network") (codes "disconnect") Handlers.disconnect, refl, refl)
