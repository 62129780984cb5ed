-- ===== src/Api.antt =====
-- agent/app.py, agent/auth.py and the routes of agent/api: how a request finds its handler.
pub mod Handlers
pub mod Routed
pub mod Served
use tugtainer.Base.{
  ℕ, ◌≡◌, Bool, true, false, not, ◌&&◌, ◌||◌, Option, none, some, List, [], ◌∷◌, ◌++◌, Text, Dict,
  codes, ◌==◌, is_empty, split, or_else, if◌then◌else◌,
}
use tugtainer.Exec.{
  Error, invalid, Answer, value, error, outcome, Exec, pure, raise, lift, ◌>>=◌, ◌>>◌,
}
use tugtainer.Signature.{Crypto, verify_signature_headers}
use tugtainer.Client.Calls.{
  ContainerOp, start, stop, restart, kill, pause, unpause, remove, op_method,
}
use tugtainer.Api.Handlers

-- A part of a path: a literal, or the parameter of the path.
pub data Segment : Type 0 where
  lit : Text → Segment
  param : Segment

pub record Route : Type 0 where
  pub is_protected : Bool
  pub method : Text
  pub pattern : List Segment
  pub handler : Handlers.Handler

abbrev pub fixed : Bool → Text → Text → Text → Handlers.Handler → Route
fixed is_protected method prefix name handler = record {
  is_protected = is_protected;
  method = method;
  pattern = lit [] ∷ lit (codes "api") ∷ lit prefix ∷ lit name ∷ [];
  handler = handler;
}

abbrev pub named : Text → Text → Handlers.Handler → Route
named method name handler = record {
  is_protected = true;
  method = method;
  pattern = lit [] ∷ lit (codes "api") ∷ lit (codes "container") ∷ lit name ∷ param ∷ [];
  handler = handler;
}

abbrev pub get : Text
get = codes "GET"

abbrev pub post : Text
post = codes "POST"

-- The routers in the order in which agent/app.py includes them.
unfoldable pub routes : List Route
routes =
    fixed false get (codes "public") (codes "health") Handlers.health
    ∷ fixed true get (codes "public") (codes "access") Handlers.access
    ∷ fixed true post (codes "container") (codes "list") Handlers.list
    ∷ named get (codes "exists") Handlers.exists
    ∷ named get (codes "inspect") Handlers.inspect
    ∷ fixed true post (codes "container") (codes "create") Handlers.create
    ∷ named post (codes "start") (Handlers.op start)
    ∷ named post (codes "stop") (Handlers.op stop)
    ∷ named post (codes "restart") (Handlers.op restart)
    ∷ named post (codes "kill") (Handlers.op kill)
    ∷ named post (codes "pause") (Handlers.op pause)
    ∷ named post (codes "unpause") (Handlers.op unpause)
    ∷ named (codes "DELETE") (codes "remove") (Handlers.op remove)
    ∷ named post (codes "logs") Handlers.logs
    ∷ named post (codes "exec") Handlers.exec_command
    ∷ fixed true get (codes "image") (codes "inspect") Handlers.image_inspect
    ∷ fixed true post (codes "image") (codes "list") Handlers.image_list
    ∷ fixed true post (codes "image") (codes "prune") Handlers.image_prune
    ∷ fixed true post (codes "image") (codes "pull") Handlers.image_pull
    ∷ fixed true post (codes "image") (codes "tag") Handlers.image_tag
    ∷ fixed true post (codes "command") (codes "run") Handlers.run
    ∷ fixed true get (codes "manifest") (codes "inspect") Handlers.imagetools_inspect
    ∷ fixed true post (codes "network") (codes "disconnect") Handlers.disconnect
    ∷ fixed true get (codes "common") (codes "version") Handlers.get_version
    ∷ []

-- starlette's rule: a parameter takes one part that is not empty. What is found is the parameter.
unfoldable pub matched : List Segment → List Text → Option Text
matched [] [] = some []
matched [] (t ∷ ts) = none
matched (lit s ∷ ps) [] = none
matched (lit s ∷ ps) (t ∷ ts) = let rest = matched ps ts in if s == t then rest else none
matched (param ∷ []) (t ∷ []) = if is_empty t then none else some t
matched (param ∷ ps) ts = none

abbrev or_next : Option Text → Route → Option (Route × Text) → Option (Route × Text)
or_next none route next = next
or_next (some name) route next = some (route, name)

unfoldable pub dispatch : Text → List Text → List Route → Option (Route × Text)
unfolding matched
dispatch method parts [] = none
dispatch method parts (route ∷ rest) =
    let next = dispatch method parts rest in
    if route.method == method then or_next (matched route.pattern parts) route next else next

-- The configuration that the requests depend on.
pub record AgentSettings : Type 0 where
  pub secret : Option Text
  pub signature_ttl : ℕ
  pub allow_unauthenticated : Bool
  pub allow_exec : Bool

module _ (crypto : Crypto) (docker : Handlers.Docker crypto.Object) (settings : AgentSettings) where
  open crypto use {Object}

  -- What arrives. A body that is no JSON is taken as its text, parameters that are not there as none.
  pub record Received : Type 0 where
    pub method : Text
    pub path : Text
    pub headers : Dict Text
    pub body : Object
    pub query : Option Object

  -- `verify_signature` of agent/auth.py.
  unfoldable pub verify_signature : (now : ℕ) → Received → Answer Bool
  verify_signature now r =
      if settings.allow_unauthenticated
      then value true
      else verify_signature_headers crypto settings.secret settings.signature_ttl now r.headers
          r.method r.path (some r.body) r.query

  abbrev pub if_protected : Bool → Answer Bool → Answer Bool
  if_protected true answer = answer
  if_protected false answer = value true

  abbrev pub respond :
      (now : ℕ) → Received → Option (Route × Text) → Exec (Handlers.Log Object) Object
  respond now r none = raise (invalid (codes "404"))
  respond now r (some (route, name)) = do
    lift (if_protected route.is_protected (verify_signature now r))
    Handlers.handle docker settings.allow_exec route.handler name r.body
        (or_else r.query docker.nothing)

  -- A request, from its arrival to the answer.
  unfoldable pub serve : (now : ℕ) → Received → Exec (Handlers.Log Object) Object
  unfolding dispatch verify_signature
  serve now r = respond now r (dispatch r.method (split b'/' r.path) routes)
