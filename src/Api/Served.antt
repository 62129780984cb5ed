-- ===== src/Api/Served.antt =====
-- A request of backend/core/agent_client.py, from the client to what the agent asks of docker.
use tugtainer.Base.{
  ℕ, [], ◌∷◌, ◌++◌, codes, ◌+◌, ◌≤◌, ◌≡◌, refl, ◌∙◌, ap, Bool, true, false, Option, some, Text,
  is_empty, or_else, pos, decimal, Bool-cases, inl, inr,
}
use tugtainer.Exec.{Answer, value, lift, ◌>>=◌, Exec}
use tugtainer.Signature.{Crypto, get_obj_bytes, get_req_signature, get_signature_headers}
use tugtainer.Signature.Verified.{
  verify_signature_headers-get_signature_headers, verify_signature_headers-same,
}
use tugtainer.Client.{AgentClient, Sent, sent_by, lstrip_slash, rstrip_slash}
use tugtainer.Client.Calls.{
  Call, Request, request_of, ContainerOp, op_path, start, stop, restart, kill, pause, unpause,
  remove, health, access, version, manifest_inspect, container_list, container_exists,
  container_inspect, container_create, container_op, container_logs, container_exec, image_inspect,
  image_list, image_prune, image_pull, image_tag, command_run, network_disconnect,
}
use tugtainer.Api.Handlers
use tugtainer.Api.{Route, respond, if_protected, AgentSettings, Received, verify_signature, serve}
use tugtainer.Api.Routed.{handler_of, name_of, or_empty, FitsPath, request_of-Routed}

-- HTTP between the two: the agent takes from a request a body and a query that are coded to the same bytes
-- as those that were sent, for the signature.
pub record Wire (crypto : Crypto) : Type 0 where
  pub body : Option crypto.Object → crypto.Object
  pub query : Option crypto.Object → Option crypto.Object
  pub body_bytes :
      (o : Option crypto.Object) → get_obj_bytes crypto (some (body o)) ≡ get_obj_bytes crypto o
  pub query_bytes :
      (o : Option crypto.Object) → get_obj_bytes crypto (query o) ≡ get_obj_bytes crypto o

-- What follows a beginning.
abbrev pub after_base : (base url : Text) → Text
after_base [] url = url
after_base (c ∷ base) [] = []
after_base (c ∷ base) (d ∷ url) = after_base base url

after_base-append : (base url : Text) → after_base base (base ++ url) ≡ url
after_base-append [] url = refl
after_base-append (c ∷ base) url = after_base-append base url

-- Each path of the client begins with one slash.
abbrev IsRooted : Text → Type 0
IsRooted path = codes "/" ++ lstrip_slash path ≡ path

op_path-IsRooted : (op : ContainerOp) (name : Text) → IsRooted (op_path op ++ name)
unfolding lstrip_slash
op_path-IsRooted start name = refl
op_path-IsRooted stop name = refl
op_path-IsRooted restart name = refl
op_path-IsRooted kill name = refl
op_path-IsRooted pause name = refl
op_path-IsRooted unpause name = refl
op_path-IsRooted remove name = refl

module _ {Object : Type 0} where
  request_of-IsRooted : (c : Call Object) → IsRooted (request_of c).path
  unfolding lstrip_slash request_of
  request_of-IsRooted (container_op op name) = op_path-IsRooted op name
  request_of-IsRooted health = refl
  request_of-IsRooted access = refl
  request_of-IsRooted version = refl
  request_of-IsRooted (manifest_inspect params) = refl
  request_of-IsRooted (container_list body) = refl
  request_of-IsRooted (container_exists name) = refl
  request_of-IsRooted (container_inspect name) = refl
  request_of-IsRooted (container_create body) = refl
  request_of-IsRooted (container_logs name body) = refl
  request_of-IsRooted (container_exec name body) = refl
  request_of-IsRooted (image_inspect body) = refl
  request_of-IsRooted (image_list body) = refl
  request_of-IsRooted (image_prune body) = refl
  request_of-IsRooted (image_pull body) = refl
  request_of-IsRooted (image_tag body) = refl
  request_of-IsRooted (command_run body) = refl
  request_of-IsRooted (network_disconnect body) = refl

module _ (crypto : Crypto) (wire : Wire crypto) (docker : Handlers.Docker crypto.Object)
    (settings : AgentSettings) where
  -- What the agent receives of what is sent: the path is what the URL has after that of the agent.
  unfoldable pub arrives : (base : Text) → Sent crypto → Received crypto docker settings
  arrives base sent = record {
    method = sent.method;
    path = after_base base sent.url;
    headers = sent.headers;
    body = wire.body sent.json;
    query = wire.query sent.params;
  }

  -- The same with the path of the request.
  abbrev arrived : Request crypto.Object → Sent crypto → Received crypto docker settings
  arrived req sent = record {
    method = sent.method;
    path = req.path;
    headers = sent.headers;
    body = wire.body sent.json;
    query = wire.query sent.params;
  }

  arrives_lem :
      (client : AgentClient) (now : ℕ) (req : Request crypto.Object)
      → IsRooted req.path
      → arrives (rstrip_slash client.url) (sent_by crypto client now req)
        ≡ arrived req (sent_by crypto client now req)
  unfolding arrives sent_by
  arrives_lem client now req rooted =
      ap (λ (path : Text). record (arrived req (sent_by crypto client now req)) { path = path })
        (after_base-append (rstrip_slash client.url) _ ∙ rooted)

  -- What the handler of a call does with what the call carries.
  abbrev pub handled : Call crypto.Object → Exec (Handlers.Log crypto.Object) crypto.Object
  handled c =
      Handlers.handle docker settings.allow_exec (handler_of c) (or_empty (name_of c))
        (wire.body (request_of c).body) (or_else (wire.query (request_of c).params) docker.nothing)

  module _ (client : AgentClient) (secret : Text) (now later : ℕ)
      (of_client : client.secret ≡ some secret) (of_agent : settings.secret ≡ some secret)
      (has_secret : is_empty secret ≡ false)
      (has_hmac : (method path : Text) (body params : Option crypto.Object)
        → is_empty (get_req_signature crypto secret (pos now) method path body params) ≡ false)
      (reads : crypto.int_of (decimal now) ≡ some (pos now)) (after : now ≤ later)
      (soon : later ≤ now + settings.signature_ttl) where
    verified :
        (req : Request crypto.Object)
        → verify_signature crypto docker settings later
            (arrived req (sent_by crypto client now req))
          ≡ value true
    unfolding verify_signature sent_by
    verified req = elim (Bool-cases settings.allow_unauthenticated) [
      | inl open_agent ↦ rw open_agent
      | inr guarded ↦
          rw (guarded, of_agent, of_client)
            (verify_signature_headers-same crypto (some (wire.body req.body))
                (wire.query req.params) req.body req.params
                (rw (wire.body_bytes req.body, wire.query_bytes req.params)) (some secret)
                settings.signature_ttl later
                (get_signature_headers crypto (some secret) now req.method req.path req.body
                  req.params)
                req.method req.path
              ∙ verify_signature_headers-get_signature_headers crypto secret settings.signature_ttl
                  now later req.method req.path req.body req.params has_secret
                  (has_hmac req.method req.path req.body req.params) reads after soon)
    ]

    let_in :
        {A : Type 0} (is_protected : Bool) (m : Exec (Handlers.Log crypto.Object) A)
        (answer : Answer Bool) (log : Handlers.Log crypto.Object)
        → answer ≡ value true
        → (lift (if_protected crypto docker settings is_protected answer) >>= λ _. m) log ≡ m log
    unfolding lift ◌>>=◌
    let_in true m answer log h = rw h
    let_in false m answer log h = refl

    responded :
        (req : Request crypto.Object) (route : Route) (name : Text)
        (log : Handlers.Log crypto.Object)
        → respond crypto docker settings later
            (arrived req (sent_by crypto client now req))
            (some (route, name))
            log
          ≡ Handlers.handle docker settings.allow_exec route.handler name
              (wire.body req.body)
              (or_else (wire.query req.params) docker.nothing)
              log
    unfolding sent_by
    responded req route name log = let_in route.is_protected _ _ log (verified req)

    -- A call of the client reaches docker as its handler says, and nothing else happens: the agent, which
    -- reads the path in the URL behind its own, routes it to the handler of its name and accepts its signature. The client and the agent share a secret
    -- that is not empty, no more time passes than the agent allows, the name of a container fits into a
    -- path, the coded HMAC is not empty, and `int` reads back the timestamp.
    pub serve-handled :
        (c : Call crypto.Object) (log : Handlers.Log crypto.Object)
        → FitsPath (name_of c)
        → serve crypto docker settings later
            (arrives (rstrip_slash client.url) (sent_by crypto client now (request_of c)))
            log
          ≡ handled c log
    unfolding serve sent_by
    serve-handled c log fits =
        let (route, found, is_handler) = request_of-Routed c fits in
        rw (arrives_lem client now (request_of c) (request_of-IsRooted c), found)
          (responded (request_of c) route (or_empty (name_of c)) log
            ∙ ap
                (λ h.
                  Handlers.handle docker settings.allow_exec h (or_empty (name_of c))
                    (wire.body (request_of c).body)
                    (or_else (wire.query (request_of c).params) docker.nothing) log)
                is_handler)
