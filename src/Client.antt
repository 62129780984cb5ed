-- ===== src/Client.antt =====
-- backend/core/agent_client.py: the client of an agent.
pub mod Calls
pub mod Manager
use tugtainer.Base.{
  ℕ, ◌≡◌, Bool, true, false, not, ◌&&◌, Option, none, some, List, [], ◌∷◌, ◌++◌, reverse, Text,
  Dict, codes, is_empty, eqb, leb, ltb, or_else, if◌then◌else◌,
}
use tugtainer.Guard.Networks.{Network}
use tugtainer.Guard.{Names, UrlError}
use tugtainer.Guard.Callers.{Checked, fine, http_exception, raised, validate_agent_url_against_ssrf}
use tugtainer.Signature.{Crypto, get_signature_headers}
use tugtainer.Client.Calls.{Request}

-- What the client is made with; a client is told from another by these in no way that the code reads.
pub record AgentClient : Type 0 where
  pub id : ℕ
  pub url : Text
  pub secret : Option Text
  pub timeout : ℕ
  pub ssl : Bool

-- Its session of aiohttp: none, an open one, or one that was closed from outside.
pub data Session : Type 0 where
  absent opened closed : Session

abbrev pub long_timeout : ℕ
long_timeout = 600

-- `s.lstrip("/")` and `s.rstrip("/")`
unfoldable pub lstrip_slash : Text → Text
lstrip_slash [] = []
lstrip_slash (c ∷ s) = let rest = lstrip_slash s in if eqb c b'/' then rest else c ∷ s

unfoldable pub rstrip_slash : Text → Text
unfolding lstrip_slash
rstrip_slash s = reverse (lstrip_slash (reverse s))

-- `TugAgentClientError`: its message, the status, and the body of the error.
pub data RequestError (Object : Type 0) : Type 0 where
  tug_error : (message : Text) → (status : ℕ) → (body : Text) → RequestError Object
  blocked : Checked → RequestError Object

-- What a request gives: nothing for an empty text, what was loaded, or the text itself.
pub data Got (Object : Type 0) : Type 0 where
  nothing : Got Object
  loaded : Object → Got Object
  plain : Text → Got Object
  failed : RequestError Object → Got Object

-- What aiohttp does with a request. The text is that of the body, also where the status is an error.
pub data Reply : Type 0 where
  response : (status : ℕ) → (text : Text) → Reply
  timed_out : Reply
  client_error : (message : Text) → Reply

module _ (crypto : Crypto) where
  open crypto use {Object}

  -- What goes to `session.request`.
  pub record Sent : Type 0 where
    pub method : Text
    pub url : Text
    pub headers : Dict Text
    pub json : Option Object
    pub params : Option Object
    pub ssl : Bool
    pub timeout : ℕ

  -- `if not timeout: timeout = self._timeout`
  unfoldable pub timeout_of : AgentClient → (is_long : Bool) → ℕ
  timeout_of client is_long = if is_long then long_timeout else client.timeout

  unfoldable pub sent_by : AgentClient → (now : ℕ) → Request Object → Sent
  unfolding timeout_of rstrip_slash lstrip_slash
  sent_by client now request = record {
    method = request.method;
    url = rstrip_slash client.url ++ (codes "/" ++ lstrip_slash request.path);
    headers =
        get_signature_headers crypto client.secret now request.method request.path request.body
          request.params;
    json = request.body;
    params = request.params;
    ssl = client.ssl;
    timeout = timeout_of client request.is_long;
  }

  abbrev of_loads : Text → Option Object → Got Object
  of_loads text none = plain text
  of_loads text (some o) = loaded o

  module _ (names : Names) (allowed_networks : List Network) (allowed_endpoints : List Text)
      (loads : Text → Option Object) where
    -- `raise_for_status` raises from 400 on.
    abbrev of_response : ℕ → Text → Got Object
    of_response status text =
        if leb 400 status
        then failed (tug_error (codes "Agent request error") status text)
        else (if is_empty text then nothing else of_loads text (loads text))

    abbrev got : Reply → Got Object
    got (response status text) = of_response status text
    got timed_out = failed (tug_error (codes "Agent timeout error") 408 (codes "Agent Timeout"))
    got (client_error message) = failed (tug_error (codes "Agent connection error") 502 message)

    -- A connection error closes the session.
    abbrev session_after : Reply → Session
    session_after (response status text) = opened
    session_after timed_out = opened
    session_after (client_error message) = absent

    abbrev if_fine : Checked → (Got Object × Session) → Session → Got Object × Session
    if_fine fine result session = result
    if_fine other result session = (failed (blocked other), session)

    -- _request: what it gives, and the session that it leaves.
    unfoldable pub request :
        AgentClient → Session → (now : ℕ) → Request Object → (Sent → Reply) → Got Object × Session
    unfolding sent_by
    request client session now req send =
        let reply = send (sent_by client now req) in
        if_fine
          (validate_agent_url_against_ssrf names allowed_networks allowed_endpoints client.url)
          (got reply, session_after reply) session
