-- ===== src/Client/Session.antt =====
-- client/Client: how the client connects, and what it does with a line of input. What the sockets
-- deliver is given: `dial` opens a connection, `network` is the answer to `GETNETWORK`, `ask` the text
-- that comes back for a request.
use kvjet.Prelude.{
  ℕ, Bool, true, false, ◌&&◌, List, [], ◌∷◌, ◌++◌, Option, none, some, Bytes, codes, ◌==◌, ◌=ᵇ◌,
  is_some, if◌then◌else◌,
}
use kvjet.Prelude.Assoc.{find, insert}
use kvjet.Prelude.Outcome.{Outcome, ok, raised, undefined, ◌>>=◌}
use kvjet.Resp.Value.{Value, simple, error, array, cons}
use kvjet.Resp.Encoder.{encode}
use kvjet.Resp.Parser.{new}
use kvjet.Cluster.{
  Cluster, Peer, no_fd, get_connection, add_topo_node, add_node_to_hash, add_connection,
}
use kvjet.Topology.{get_topo_v2}
use kvjet.Client.{
  Client, handle, extract_key, is_read_command, is_moved_response, route_read, route_write,
}

-- `Cluster::Cluster()`, with the number that is drawn.
abbrev default_cluster : ℕ → Cluster
default_cluster uuid = record {
  self_node = record { ip = codes "127.0.0.1"; port = 0; uuid = uuid };
  node_hash = [];
  heartbeat_time = [];
  connections = [];
  fd_to_uuid = [];
  topo = [];
  gossip_cache = [];
}

unfoldable pub load_topology : List Peer → Cluster → Cluster
load_topology [] c = c
load_topology (node ∷ nodes) c =
    load_topology nodes (add_node_to_hash node.uuid (add_topo_node node c))

abbrev connected : ℕ → ℕ → Client → Client
connected uuid fd c = record c {
  cluster = add_connection uuid fd c.cluster;
  connections = insert fd new c.connections;
}

module _ (dial : Bytes → ℕ → Outcome ℕ) where
  -- The loop of the constructor. The socket is moved into the map, which leaves -1.
  unfoldable pub connect_all : Bytes → ℕ → ℕ → List Peer → Client → Outcome Client
  connect_all ip port sock [] c = ok c
  connect_all ip port sock (node ∷ nodes) c =
      if node.ip =ᵇ ip && node.port == port
      then connect_all ip port no_fd nodes (connected node.uuid sock c)
      else (dial node.ip node.port >>= λ fd.
          connect_all ip port sock nodes (connected node.uuid fd c))

  unfoldable pub construct : ℕ → Bytes → ℕ → (ℕ → Outcome Value) → Outcome Client
  unfolding load_topology connect_all
  construct uuid ip port network = dial ip port >>= λ sock. network sock >>= λ reply.
      get_topo_v2 reply [] >>= λ topo. connect_all ip port sock topo.0 (record {
        cluster = load_topology topo.0 (default_cluster uuid);
        groups = topo.1;
        connections = [];
        last_sent_fd = no_fd;
      })

  -- The loop that connects to the nodes that have no socket yet.
  unfoldable pub connect_new : List Peer → Client → Outcome Client
  connect_new [] c = ok c
  connect_new (node ∷ nodes) c =
      if is_some (find (get_connection node.uuid c.cluster) c.connections)
      then connect_new nodes c
      else (dial node.ip node.port >>= λ fd. connect_new nodes (connected node.uuid fd c))

  -- `refreshTopology` asks the connection with the smallest descriptor.
  unfoldable pub refresh_topology : (ℕ → Outcome Value) → Client → Outcome Client
  unfolding load_topology connect_new
  refresh_topology network c = elim c.connections [
    | [] ↦ ok c
    | p ∷ rest ↦ network p.0 >>= λ reply. get_topo_v2 reply c.groups >>= λ topo.
        connect_new topo.0 (record c { cluster = load_topology topo.0 c.cluster; groups = topo.1 })
  ]

-- `send` finds the connection of the node.
unfoldable pub send_to : Option ℕ → Client → Outcome Client
send_to none c = undefined
send_to (some uuid) c =
    let fd = get_connection uuid c.cluster in
    if fd == no_fd
    then raised "Failed to get connection for node UUID"
    else if is_some (find fd c.connections)
    then ok (record c { last_sent_fd = fd })
    else raised "Socket not found for fd"

-- A choice of a replica: the rounds of its loop, and the number that is drawn.
abbrev Choice : Type 0
Choice = ℕ × ℕ

abbrev route : Choice → Bool → Bytes → Client → Outcome (Option ℕ)
route choice is_read key c =
    if is_read
    then route_read choice.0 choice.1 key c
    else (route_write key c >>= λ uuid. ok (some uuid))

abbrev name_of : Value → Bytes
name_of (array (cons (simple name) vs)) = name
name_of _ = []

module _ (dial : Bytes → ℕ → Outcome ℕ) (network : ℕ → Outcome Value)
    (ask : ℕ → Bytes → Outcome Bytes) where
  -- A request is sent, and once more if the answer is `MOVED`. A loop of `queryReplicas` that has not
  -- ended counts as undefined here.
  unfoldable pub exchange : Choice → Choice → Value → Client → Outcome (List Bytes × Client)
  unfolding send_to
  exchange first again req c = extract_key req >>= λ key.
      let is_read = is_read_command (name_of req) in
      let encoded = encode req in
      route first is_read key c >>= λ uuid. send_to uuid c >>= λ d.
      ask d.last_sent_fd encoded >>= λ resp.
      if is_moved_response resp
      then (refresh_topology dial network d >>= λ e. route again is_read key e >>= λ other.
          send_to other e >>= λ f. ask f.last_sent_fd encoded >>= λ reply.
          ok ((resp ++ codes " (retrying...)") ∷ reply ∷ [], f))
      else ok (resp ∷ [], d)

  -- One line of `run`: what it prints, the client behind it, and whether the program goes on.
  unfoldable pub run_line : Choice → Choice → Bytes → Client → Outcome (List Bytes × Client × Bool)
  unfolding exchange
  run_line first again [] c = ok ([], c, true)
  run_line first again (ch ∷ input) c = handle (ch ∷ input) >>= λ req. elim req [
    | error text ↦ ok (text ∷ [], c, if text =ᵇ codes "GoodBye." then false else true)
    | v ↦ exchange first again v c >>= λ r. ok (r.0, r.1, true)
  ]
