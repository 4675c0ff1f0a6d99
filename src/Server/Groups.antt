-- ===== src/Server/Groups.antt =====
-- server/Server: `initRaftGroups`, which sets up the Raft groups of a topology.
use kvjet.Prelude.{
  ℕ, ◌+◌, ◌-◌, ◌%◌, ◌^◌, List, [], ◌∷◌, none, some, Bytes, length, ◌==◌, if◌then◌else◌,
}
use kvjet.Prelude.Assoc.{Assoc, find, insert}
use kvjet.Prelude.Outcome.{Outcome, ok, ◌>>=◌, index}
use kvjet.Raft.Node.{RaftNode}
use kvjet.Raft.Handlers.{construct}
use kvjet.Cluster.{Cluster, contains, add_node_to_hash}
use kvjet.Server.{Server}

abbrev pub keys : {V : Type 0} → Assoc V → List ℕ
keys [] = []
keys (p ∷ m) = p.0 ∷ keys m

-- The loop that looks for the node's own number: 0 if it is not there.
abbrev pub index_from : ℕ → ℕ → List ℕ → ℕ
index_from self i [] = 0
index_from self i (id ∷ ids) =
    let rest = index_from self (i + 1) ids in if id == self then i else rest

abbrev pub self_index : ℕ → List ℕ → ℕ
self_index self ids = index_from self 0 ids

-- What `raft_groups.clear()` leaves on disk.
abbrev close_all : Assoc RaftNode → Assoc Bytes → Assoc Bytes
close_all [] files = files
close_all (p ∷ groups) files = close_all groups (insert p.0 p.1.file files)

abbrev add_all : List ℕ → Cluster → Cluster
add_all [] c = c
add_all (id ∷ ids) c = add_all ids (add_node_to_hash id c)

-- The elements that are new to `seen`, in order: what `seen.insert(uid).second` lets through.
abbrev pub distinct : List ℕ → List ℕ → List ℕ
distinct seen [] = []
distinct seen (x ∷ xs) =
    let skip = distinct seen xs in
    let keep = distinct (x ∷ seen) xs in if contains x seen then skip else x ∷ keep

abbrev pub others : ℕ → List ℕ → List ℕ
others self [] = []
others self (x ∷ xs) = let rest = others self xs in if x == self then rest else x ∷ rest

-- `(selfIdx + offset + N) % N` with `offset = -k`, in `size_t`.
abbrev pub group_index : ℕ → ℕ → ℕ → ℕ
group_index self_idx k n = (self_idx + (2 ^ 64 - k) % 2 ^ 64 + n) % 2 ^ 64 % n

abbrev pub members_of_group : List ℕ → ℕ → Outcome (List ℕ)
members_of_group ids gi =
    let n = length ids in
    index ids ((gi + 0) % n) >>= λ a.
    index ids ((gi + 1) % n) >>= λ b. index ids ((gi + 2) % n) >>= λ c. ok (a ∷ b ∷ c ∷ [])

-- The file that a group finds.
abbrev log_file : ℕ → Assoc Bytes → Bytes
log_file gid files = elim (find gid files) [ none ↦ [] | some file ↦ file ]

-- `raft_groups.emplace` keeps a group that is there.
abbrev emplace_group : ℕ → RaftNode → Assoc RaftNode → Assoc RaftNode
emplace_group gid node groups = elim (find gid groups) [
  | none ↦ insert gid node groups
  | some _ ↦ groups
]

-- The maps are cleared, and each node is on the ring.
abbrev pub cleared : Server → Server
cleared s = record s {
  log_files = close_all s.raft_groups s.log_files;
  raft_groups = [];
  master_to_group = [];
  group_members = [];
  cluster = add_all (keys s.cluster.topo) s.cluster;
}

-- `rand gi` gives the results of `std::rand` that the node of group `gi` draws when it is set up.
module _ (rand : ℕ → ℕ → ℕ) where
  unfoldable pub add_group : List ℕ → ℕ → ℕ → Server → Outcome Server
  add_group ids self gi s = members_of_group ids gi >>= λ members.
      construct (rand gi) gi self (distinct [] (others self members)) (log_file gi s.log_files)
      >>= λ node. index ids gi >>= λ master. ok (record s {
        raft_groups = emplace_group gi node s.raft_groups;
        group_members = insert gi (distinct [] members) s.group_members;
        master_to_group = insert master gi s.master_to_group;
      })

  unfoldable pub add_groups : List ℕ → ℕ → ℕ → List ℕ → Server → Outcome Server
  unfolding add_group
  add_groups ids self self_idx [] s = ok s
  add_groups ids self self_idx (k ∷ ks) s =
      add_group ids self (group_index self_idx k (length ids)) s >>= add_groups ids self self_idx ks

  unfoldable pub init_raft_groups : Server → Outcome Server
  unfolding add_groups
  init_raft_groups s =
      let ids = keys s.cluster.topo in
      let self = s.cluster.self_node.uuid in
      if length ids == 0
      then ok s
      else add_groups ids self (self_index self ids) (0 ∷ 1 ∷ 2 ∷ []) (cleared s)
