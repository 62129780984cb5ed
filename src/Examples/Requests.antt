-- ===== src/Examples/Requests.antt =====
-- A stop of a container, signed at 7 and received at 9, and some turns of the manager of the clients.
use tugtainer.Base.{
  ℕ, ◌+◌, leb, ◌≡◌, refl, true, false, Option, none, some, List, [], ◌∷◌, Text, codes, is_empty,
  has_char, pos, arith, or_else, if◌then◌else◌, ◌++◌,
}
use tugtainer.Exec.{value}
use tugtainer.Signature.{get_obj_bytes, get_req_signature}
use tugtainer.Client.{AgentClient, sent_by, rstrip_slash}
use tugtainer.Client.Calls.{Call, container_op, stop, request_of}
use tugtainer.Client.Manager.{Manager, live_all, live_removed, find, assign, discard}
use tugtainer.Client.Manager.Refines.{
  Op, set, request, remove, request_removed, leaks, run_ops, IsBalanced, view, promised_all,
  run_ops-IsBalanced,
}
use tugtainer.Api.Handlers
use tugtainer.Api.{AgentSettings, serve}
use tugtainer.Api.Served.{Wire, arrives, handled, serve-handled}
use tugtainer.Examples.Containers.{host}
use tugtainer.Examples.Signatures.{crypto, is_read}

body_bytes : (o : Option Text) → get_obj_bytes crypto (some (or_else o [])) ≡ get_obj_bytes crypto o
unfolding get_obj_bytes
body_bytes none = refl
body_bytes (some o) = refl

abbrev wire : Wire crypto
wire = record {
  body = λ o. or_else o [];
  query = λ o. o;
  body_bytes = body_bytes;
  query_bytes = λ o. refl;
}

abbrev docker : Handlers.Docker Text
docker = record {
  perform = λ log request. value [];
  exists_container = λ log name. value true;
  exists_image = λ log name. value true;
  ran = λ log command. value Handlers.no_output;
  text_of = λ t. t;
  bool_of = λ b. if b then codes "true" else codes "false";
  pair_of = λ a b. a ++ b;
  nothing = [];
  spec_or_id = λ o. o;
  image = λ o. o;
  tag = λ o. o;
  command_line = λ o. o;
  command = λ o. o ∷ [];
  spec_or_digest = λ o. o;
  is_ip = λ t. false;
  is_valid = λ h o. true;
}

abbrev settings : AgentSettings
settings = record {
  secret = some (codes "k");
  signature_ttl = 5;
  allow_unauthenticated = false;
  allow_exec = false;
}

abbrev client : AgentClient
client = record {
  id = 1;
  url = codes "http://agent:8001/";
  secret = some (codes "k");
  timeout = 5;
  ssl = true;
}

has_hmac :
    (method path : Text) (body params : Option Text)
    → is_empty (get_req_signature crypto (codes "k") (pos 7) method path body params) ≡ false
unfolding get_req_signature
has_hmac method path body params = refl

abbrev stop_db : Call Text
stop_db = container_op stop (codes "db")

no_slash : has_char b'/' (codes "db") ≡ false
unfolding has_char
no_slash = refl

serve-handled_example :
    serve crypto docker settings 9
      (arrives crypto wire docker settings
        (rstrip_slash client.url)
        (sent_by crypto client 7 (request_of stop_db)))
      []
    ≡ handled crypto wire docker settings stop_db []
serve-handled_example =
    serve-handled crypto wire docker settings client (codes "k") 7 9 refl refl refl has_hmac is_read
      (omega arith) (omega arith) stop_db [] (refl, no_slash)

-- A host is set, asked twice, the second time in vain, and removed, and then asked by who held its client.
abbrev at_start : Manager
at_start = record { clients = []; removed = []; sessions_opened = 0; sessions_closed = 0 }

abbrev ops : List Op
ops = set host ∷ request 1 false ∷ request 1 true ∷ remove 1 ∷ request_removed 0 false ∷ []

balanced : IsBalanced at_start
unfolding live_all live_removed
balanced = record { distinct = refl; balance = refl }

left_open : live_removed (run_ops ops at_start).removed ≡ 1
unfolding run_ops live_removed find assign discard
left_open = refl

run_ops-IsBalanced_example :
    IsBalanced (run_ops ops at_start)
    × (leb (live_removed (run_ops ops at_start).removed) (live_removed at_start.removed + leaks ops)
        ≡ true)
    × ((id : ℕ) → view (run_ops ops at_start) id ≡ promised_all ops (view at_start) id)
run_ops-IsBalanced_example = run_ops-IsBalanced ops at_start balanced
