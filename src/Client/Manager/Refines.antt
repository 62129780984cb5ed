-- ===== src/Client/Manager/Refines.antt =====
-- `AgentClientManager` of backend/core/agent_client.py as a function from hosts to clients that is changed
-- at one host, and what becomes of the sessions.
use tugtainer.Base.{
  ℕ, ◌+◌, leb, ◌≡◌, refl, ◌∙◌, ap, sym, arith, Bool, true, Option, none, some, List, [], ◌∷◌, eqb,
  eqb_iff, if◌then◌else◌,
}
use tugtainer.Db.{HostsModel}
use tugtainer.Client.{AgentClient}
use tugtainer.Client.Manager.{
  Entry, Manager, find, discard, create_client, live_entry, live_all, set_client, get_host_client,
  remove_client, remove_all, request_by, after_request, store_client, request_by_removed,
  live_removed, closed_before,
}
use tugtainer.Client.Manager.Entries.{
  is_distinct, find-assign, find-discard, assign-distinct, discard-distinct, live_all-assign,
  live_all-discard, find-discard_self,
}
use tugtainer.Client.Manager.Sessions.{
  live_removed-closed_before, live_removed-left_before, live_removed-all_without_session,
  live_removed-requested, requested_grows, live_entry_small,
}

pub data Op : Type 0 where
  set get : HostsModel → Op
  store : HostsModel → Op
  remove : ℕ → Op
  clear : Op
  request : ℕ → (connection_error : Bool) → Op
  request_removed : ℕ → (connection_error : Bool) → Op

unfoldable pub run_op : Op → Manager → Manager
unfolding set_client store_client get_host_client remove_client remove_all request_by
    request_by_removed
run_op (set host) m = set_client host m
run_op (get host) m = (get_host_client host m).1
run_op (remove id) m = remove_client id m
run_op clear m = remove_all m
run_op (request id connection_error) m = request_by id connection_error m
run_op (store host) m = store_client host m
run_op (request_removed place connection_error) m = request_by_removed place connection_error m

unfoldable pub run_ops : List Op → Manager → Manager
unfolding run_op
run_ops [] m = m
run_ops (op ∷ ops) m = run_ops ops (run_op op m)

-- The clients as a function.
abbrev pub View : Type 0
View = ℕ → Option AgentClient

abbrev client_in : Option Entry → Option AgentClient
client_in none = none
client_in (some e) = some e.client

abbrev pub view : Manager → View
view m id = client_in (find id m.clients)

abbrev pub changed : View → ℕ → Option AgentClient → View
changed f id c j = if eqb id j then c else f j

abbrev or_new : Option AgentClient → HostsModel → Option AgentClient
or_new none host = some (create_client host).client
or_new (some c) host = some c

-- What an operation promises: to set replaces, to get creates what is missing, a request changes nothing.
abbrev pub promised : Op → View → View
promised (set host) f = changed f host.id (some (create_client host).client)
promised (get host) f = changed f host.id (or_new (f host.id) host)
promised (remove id) f = changed f id none
promised clear f = λ j. none
promised (store host) f = changed f host.id (some (create_client host).client)
promised (request id connection_error) f = f
promised (request_removed place connection_error) f = f

abbrev pub promised_all : List Op → View → View
promised_all [] f = f
promised_all (op ∷ ops) f = promised_all ops (promised op f)

-- Each session that was opened was closed, or is that of a client that is there or was removed; no host has two
-- clients.
pub record IsBalanced (m : Manager) : Type 0 where
  pub distinct : is_distinct m.clients ≡ true
  pub balance : m.sessions_opened ≡ m.sessions_closed + live_all m.clients + live_removed m.removed

-- What may leave a session open that no client of the dictionary has.
abbrev pub may_leak : Op → ℕ
may_leak (store host) = 1
may_leak (request_removed place connection_error) = if connection_error then 0 else 1
may_leak other = 0

unfoldable pub leaks : List Op → ℕ
leaks [] = 0
leaks (op ∷ ops) = may_leak op + leaks ops

remove-IsBalanced : (id : ℕ) (m : Manager) → IsBalanced m → IsBalanced (remove_client id m)
unfolding remove_client
remove-IsBalanced id m b = record {
  distinct = discard-distinct id _ b.distinct;
  balance = omega (
    arith,
    b.balance,
    live_all-discard id m.clients,
    live_removed-closed_before (find id m.clients) m.removed,
  );
}

store-IsBalanced :
    (host : HostsModel) (m : Manager) → IsBalanced m → IsBalanced (store_client host m)
unfolding store_client
store-IsBalanced host m b = record {
  distinct = assign-distinct host.id (create_client host) _ b.distinct;
  balance = omega (
    arith,
    b.balance,
    live_all-assign host.id (create_client host) m.clients,
    live_removed-left_before (find host.id m.clients) m.removed,
  );
}

get_balance :
    (host : HostsModel) (m : Manager)
    → IsBalanced m
    → (o : Option Entry) → find host.id m.clients ≡ o
    → IsBalanced (get_host_client host m).1
unfolding get_host_client
get_balance host m b none h = rw h (record {
  distinct = assign-distinct host.id (create_client host) m.clients b.distinct;
  balance =
      omega
        (arith, b.balance, ap live_entry h, live_all-assign host.id (create_client host) m.clients);
})
get_balance host m b (some e) h = rw h b

request_balance :
    (id : ℕ) (connection_error : Bool) (m : Manager)
    → IsBalanced m
    → (o : Option Entry) → find id m.clients ≡ o
    → IsBalanced (request_by id connection_error m)
unfolding request_by
request_balance id c m b none h = rw h b
request_balance id c m b (some e) h = rw h (record {
  distinct = assign-distinct id _ m.clients b.distinct;
  balance = ground (
    arith,
    b.balance,
    ap live_entry h,
    live_all-assign id (record e { session = after_request c }) m.clients,
  );
})

run_op-IsBalanced : (op : Op) (m : Manager) → IsBalanced m → IsBalanced (run_op op m)
unfolding run_op set_client get_host_client remove_all request_by_removed
run_op-IsBalanced (set host) m b =
    store-IsBalanced host (remove_client host.id m) (remove-IsBalanced host.id m b)
run_op-IsBalanced (get host) m b = get_balance host m b (find host.id m.clients) refl
run_op-IsBalanced (store host) m b = store-IsBalanced host m b
run_op-IsBalanced (remove id) m b = remove-IsBalanced id m b
run_op-IsBalanced clear m b = record {
  distinct = refl;
  balance =
      unfold live_all in
      omega (arith, b.balance, live_removed-all_without_session m.clients m.removed);
}
run_op-IsBalanced (request id e) m b = request_balance id e m b (find id m.clients) refl
run_op-IsBalanced (request_removed place e) m b = record {
  distinct = b.distinct;
  balance = omega (arith, b.balance, live_removed-requested place e m.removed);
}

-- Whatever the session of an entry is, an operation that cannot leak leaves no more of them open.
same_removed :
    (id : ℕ) (connection_error : Bool) (m : Manager) (o : Option Entry)
    → find id m.clients ≡ o
    → (request_by id connection_error m).removed ≡ m.removed
unfolding request_by
same_removed id c m none h = rw h refl
same_removed id c m (some e) h = rw h refl

got_removed :
    (host : HostsModel) (m : Manager) (o : Option Entry)
    → find host.id m.clients ≡ o
    → (get_host_client host m).1.removed ≡ m.removed
unfolding get_host_client
got_removed host m none h = rw h refl
got_removed host m (some e) h = rw h refl

run_op_leaks :
    (op : Op) (m : Manager)
    → IsBalanced m
    → leb (live_removed (run_op op m).removed) (live_removed m.removed + may_leak op) ≡ true
unfolding run_op set_client remove_client store_client remove_all request_by_removed
run_op_leaks (set host) m b = ground (
  arith,
  live_removed-left_before (find host.id (discard host.id m.clients))
      (closed_before (find host.id m.clients) m.removed),
  live_removed-closed_before (find host.id m.clients) m.removed,
  ap live_entry (find-discard_self host.id m.clients b.distinct),
)
run_op_leaks (get host) m b = rw (got_removed host m (find host.id m.clients) refl) (ground arith)
run_op_leaks (store host) m b = ground (
  arith,
  live_removed-left_before (find host.id m.clients) m.removed,
  live_entry_small (find host.id m.clients),
)
run_op_leaks (remove id) m b =
    rw (live_removed-closed_before (find id m.clients) m.removed) (ground arith)
run_op_leaks clear m b = rw (live_removed-all_without_session m.clients m.removed) (ground arith)
run_op_leaks (request id e) m b = rw (same_removed id e m (find id m.clients) refl) (ground arith)
run_op_leaks (request_removed place e) m b = requested_grows place e m.removed

same_found :
    (i j : ℕ) (m : Manager) {o : Option Entry}
    → find i m.clients ≡ o
    → eqb i j ≡ true
    → find j m.clients ≡ o
same_found i j m h e = ap (λ (k : ℕ). find k m.clients) (sym ((eqb_iff i j).0 e)) ∙ h

view_get :
    (host : HostsModel) (m : Manager) (id : ℕ) (o : Option Entry)
    → find host.id m.clients ≡ o
    → view (get_host_client host m).1 id ≡ promised (get host) (view m) id
unfolding get_host_client
view_get host m id none h = ground (arith, h, find-assign host.id id (create_client host) m.clients)
view_get host m id (some e) h = ground (arith, h, same_found host.id id m h)

view_request :
    (j : ℕ) (connection_error : Bool) (m : Manager) (id : ℕ) (o : Option Entry)
    → find j m.clients ≡ o
    → view (request_by j connection_error m) id ≡ view m id
unfolding request_by
view_request j c m id none h = rw h
view_request j c m id (some e) h = ground (
  arith,
  h,
  same_found j id m h,
  find-assign j id (record e { session = after_request c }) m.clients,
)

view-run_op :
    (op : Op) (m : Manager) (id : ℕ)
    → IsBalanced m
    → view (run_op op m) id ≡ promised op (view m) id
unfolding run_op set_client store_client get_host_client remove_client remove_all request_by
    request_by_removed
view-run_op (set host) m id b = ground (
  arith,
  find-assign host.id id (create_client host) (discard host.id m.clients),
  find-discard host.id id m.clients b.distinct,
)
view-run_op (store host) m id b =
    ground (arith, find-assign host.id id (create_client host) m.clients)
view-run_op (request_removed place e) m id b = refl
view-run_op (get host) m id b = view_get host m id (find host.id m.clients) refl
view-run_op (remove j) m id b = ground (arith, find-discard j id m.clients b.distinct)
view-run_op clear m id b = unfold find in refl
view-run_op (request j e) m id b = view_request j e m id (find j m.clients) refl

promised-ext :
    (op : Op) (f g : View)
    → ((id : ℕ) → f id ≡ g id)
    → (id : ℕ) → promised op f id ≡ promised op g id
promised-ext (set host) f g h id = rw (h id)
promised-ext (get host) f g h id = rw (h id, h host.id)
promised-ext (remove j) f g h id = rw (h id)
promised-ext clear f g h id = refl
promised-ext (store host) f g h id = rw (h id)
promised-ext (request_removed place e) f g h id = h id
promised-ext (request j e) f g h id = h id

promised_all-ext :
    (ops : List Op) (f g : View)
    → ((id : ℕ) → f id ≡ g id)
    → (id : ℕ) → promised_all ops f id ≡ promised_all ops g id
promised_all-ext [] f g h id = h id
promised_all-ext (op ∷ ops) f g h id = promised_all-ext ops _ _ (promised-ext op f g h) id

-- After any sequence of operations of the manager, of requests by its clients, of requests by clients that
-- were removed, and of second halves of `set_client`: the client of each host is the one that the operations
-- promise, no host has two clients, and the sessions that were opened are those that were closed, those of
-- the clients that are there, and those of removed clients. Of the last there are no more than at the start
-- but for one at most for each request by a removed client that reached the agent and for each second half
-- that ran on its own: without these no session is left behind.
pub run_ops-IsBalanced :
    (ops : List Op) (m : Manager)
    → IsBalanced m
    → IsBalanced (run_ops ops m)
      × (leb (live_removed (run_ops ops m).removed) (live_removed m.removed + leaks ops) ≡ true)
      × ((id : ℕ) → view (run_ops ops m) id ≡ promised_all ops (view m) id)
unfolding run_ops leaks
run_ops-IsBalanced [] m b = (b, ground arith, λ id. refl)
run_ops-IsBalanced (op ∷ ops) m b =
    let (kept, few, viewed) = run_ops-IsBalanced ops (run_op op m) (run_op-IsBalanced op m b) in
    (
      kept,
      ground (arith, few, run_op_leaks op m b),
      λ id. viewed id ∙ promised_all-ext ops _ _ (λ j. view-run_op op m j b) id,
    )
