-- ===== src/Client/Manager.antt =====
-- `AgentClientManager` of backend/core/agent_client.py: the clients by the identifiers of their hosts, with
-- their sessions. The state counts the sessions that were opened and those that were closed, and has the clients
-- that are in the dictionary no more: who got one before may hold it still. An operation is taken to run
-- through, but for the two halves of `set_client`, between which others may come.
pub mod Entries
pub mod Sessions
pub mod Refines
use tugtainer.Base.{
  ℕ, zero, suc, ◌+◌, Bool, true, false, Option, none, some, List, [], ◌∷◌, map, eqb, if◌then◌else◌,
}
use tugtainer.Db.{HostsModel}
use tugtainer.Client.{AgentClient, Session, absent, opened, closed}

pub record Entry : Type 0 where
  pub client : AgentClient
  pub session : Session

-- `_HOST_CLIENTS`
pub record Manager : Type 0 where
  pub clients : List (ℕ × Entry)
  pub removed : List Entry
  pub sessions_opened : ℕ
  pub sessions_closed : ℕ

unfoldable pub find : ℕ → List (ℕ × Entry) → Option Entry
find id [] = none
find id ((j, e) ∷ d) = if eqb j id then some e else find id d

-- `d[id] = e`
unfoldable pub assign : ℕ → Entry → List (ℕ × Entry) → List (ℕ × Entry)
assign id e [] = (id, e) ∷ []
assign id e ((j, old) ∷ d) =
    let rest = assign id e d in if eqb j id then (j, e) ∷ d else (j, old) ∷ rest

-- `d.pop(id, None)`, without what it returns.
unfoldable pub discard : ℕ → List (ℕ × Entry) → List (ℕ × Entry)
discard id [] = []
discard id ((j, e) ∷ d) = let rest = discard id d in if eqb j id then d else (j, e) ∷ rest

-- `_create_client`: its session is made with the first request.
abbrev pub create_client : HostsModel → Entry
create_client host = record {
  client = record {
    id = host.id;
    url = host.url;
    secret = host.secret;
    timeout = host.timeout;
    ssl = host.ssl;
  };
  session = absent;
}

-- How many sessions `close_session` closes, of a client that may be missing.
abbrev pub live : Session → ℕ
live absent = 0
live opened = 1
live closed = 0

abbrev pub live_entry : Option Entry → ℕ
live_entry none = 0
live_entry (some e) = live e.session

unfoldable pub live_all : List (ℕ × Entry) → ℕ
live_all [] = 0
live_all ((id, e) ∷ d) = live e.session + live_all d

-- The sum over clients that are removed.
unfoldable pub live_removed : List Entry → ℕ
live_removed [] = 0
live_removed (e ∷ l) = live e.session + live_removed l

abbrev pub without_session : Entry → Entry
without_session e = record e { session = absent }

abbrev pub closed_before : Option Entry → List Entry → List Entry
closed_before none removed = removed
closed_before (some e) removed = without_session e ∷ removed

abbrev pub left_before : Option Entry → List Entry → List Entry
left_before none removed = removed
left_before (some e) removed = e ∷ removed

unfoldable pub remove_client : ℕ → Manager → Manager
unfolding find discard
remove_client id m = record {
  clients = discard id m.clients;
  removed = closed_before (find id m.clients) m.removed;
  sessions_opened = m.sessions_opened;
  sessions_closed = m.sessions_closed + live_entry (find id m.clients);
}

-- The second half of `set_client`. A client that is there is replaced, and its session stays as it is.
unfoldable pub store_client : HostsModel → Manager → Manager
unfolding find assign
store_client host m = record m {
  clients = assign host.id (create_client host) m.clients;
  removed = left_before (find host.id m.clients) m.removed;
}

unfoldable pub set_client : HostsModel → Manager → Manager
unfolding remove_client store_client
set_client host m = store_client host (remove_client host.id m)

abbrev or_create : Option Entry → HostsModel → Manager → Entry × Manager
or_create (some e) host m = (e, m)
or_create none host m =
    (create_client host, record m { clients = assign host.id (create_client host) m.clients })

unfoldable pub get_host_client : HostsModel → Manager → Entry × Manager
unfolding find assign
get_host_client host m = or_create (find host.id m.clients) host m

unfoldable pub all_without_session : List (ℕ × Entry) → List Entry → List Entry
all_without_session [] removed = removed
all_without_session ((id, e) ∷ d) removed = without_session e ∷ all_without_session d removed

unfoldable pub remove_all : Manager → Manager
unfolding live_all all_without_session
remove_all m = record {
  clients = [];
  removed = all_without_session m.clients m.removed;
  sessions_opened = m.sessions_opened;
  sessions_closed = m.sessions_closed + live_all m.clients;
}

-- `get_all`, without the sessions.
abbrev get_all : List (ℕ × Entry) → List (ℕ × AgentClient)
get_all [] = []
get_all ((id, e) ∷ d) = (id, e.client) ∷ get_all d

unfoldable pub load_agents_on_init : List HostsModel → Manager → Manager
unfolding set_client
load_agents_on_init [] m = m
load_agents_on_init (host ∷ hosts) m =
    load_agents_on_init hosts (if host.enabled then set_client host m else m)

-- `_get_session` of a client that is held: a session is opened unless one is open.
abbrev opened_by : Session → ℕ
opened_by opened = 0
opened_by absent = 1
opened_by closed = 1

-- What a request does to the session of a client: it is opened, and closed again at a connection error.
abbrev after_request : Bool → Session
after_request true = absent
after_request false = opened

abbrev closed_by : Bool → ℕ
closed_by true = 1
closed_by false = 0

abbrev request_on : Option Entry → ℕ → (connection_error : Bool) → Manager → Manager
request_on none id connection_error m = m
request_on (some e) id connection_error m = record m {
  clients = assign id (record e { session = after_request connection_error }) m.clients;
  sessions_opened = m.sessions_opened + opened_by e.session;
  sessions_closed = m.sessions_closed + closed_by connection_error;
}

-- A request that the guard lets pass, by the client of a host.
unfoldable pub request_by : ℕ → (connection_error : Bool) → Manager → Manager
unfolding find assign
request_by id connection_error m = request_on (find id m.clients) id connection_error m

-- The removed clients once the one at a place has sent a request, and the sessions that it opened.
unfoldable pub requested : ℕ → (connection_error : Bool) → List Entry → List Entry
requested place connection_error [] = []
requested zero connection_error (e ∷ l) = record e { session = after_request connection_error } ∷ l
requested (suc place) connection_error (e ∷ l) = e ∷ requested place connection_error l

unfoldable pub opened_at : ℕ → List Entry → ℕ
opened_at place [] = 0
opened_at zero (e ∷ l) = opened_by e.session
opened_at (suc place) (e ∷ l) = opened_at place l

unfoldable pub closed_at : ℕ → (connection_error : Bool) → List Entry → ℕ
closed_at place connection_error [] = 0
closed_at zero connection_error (e ∷ l) = closed_by connection_error
closed_at (suc place) connection_error (e ∷ l) = closed_at place connection_error l

-- A request by a client that someone still holds.
unfoldable pub request_by_removed : ℕ → (connection_error : Bool) → Manager → Manager
unfolding requested opened_at closed_at
request_by_removed place connection_error m = record m {
  removed = requested place connection_error m.removed;
  sessions_opened = m.sessions_opened + opened_at place m.removed;
  sessions_closed = m.sessions_closed + closed_at place connection_error m.removed;
}
