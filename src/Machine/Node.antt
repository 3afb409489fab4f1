-- ===== src/Machine/Node.antt =====
-- The workload cluster that the scopes of pkg/maas/scope ask: whether its API server is online, and
-- the provider id of a machine's node.
use cluster_api_provider_maa.Base.{
  String, ◌<>◌, Bool, true, false, List, [], ◌∷◌, Option, none, some, ◌==◌, deref, if◌then◌else◌,
  cut_at, has_prefix, M, Result, ok, err, Error, message, return, fail, wrapping, ◌>>=◌,
}
use cluster_api_provider_maa.Machine.Scope.{Live, lift, current}

pub record Node : Type 0 where
  pub name : String
  pub provider_id : String

-- A client of the workload cluster. `patch_provider_id` patches a node with a provider id.
pub record Remote (S : Type 0) : Type 0 where
  pub get_node : String → M S Node
  pub list_nodes : M S (List Node)
  pub patch_provider_id : Node → String → M S (Unit {0})

-- The cluster, as the scopes read it: whether it is being deleted, and the tracker's client.
pub record Tracker (S : Type 0) : Type 0 where
  pub is_deleting : M S Bool
  pub get_client : M S (Remote S)

before_cut : String → Option (String × String) → String
before_cut s none = s
before_cut s (some (head, rest)) = head

-- The part of a host name before its first dot.
unfoldable pub short_hostname : String → String
unfolding before_cut
short_hostname hostname = before_cut hostname (cut_at b'.' hostname)

find_with_prefix : (String → String) → String → List Node → Option Node
find_with_prefix lower prefix [] = none
find_with_prefix lower prefix (n ∷ ns) =
    let rest = find_with_prefix lower prefix ns in
    if has_prefix (lower n.name) prefix then some n else rest

module _ {S : Type 0} (lower : String → String) (remote : Remote S) where
  found_or_error : Error → Option Node → S → Result Node × S
  found_or_error e none s = (err e, s)
  found_or_error e (some n) s = (ok n, s)

  search_listed : String → Error → Result (List Node) × S → Result Node × S
  unfolding found_or_error find_with_prefix
  search_listed hostname e (err l, s) = (err e, s)
  search_listed hostname e (ok ns, s) =
      found_or_error e (find_with_prefix lower (lower hostname <> ".") ns) s

  search_list : String → Result Node × S → Result Node × S
  unfolding search_listed
  search_list hostname (ok n, s) = (ok n, s)
  search_list hostname (err e, s) = search_listed hostname e (remote.list_nodes s)

  -- The short name is tried where it differs.
  search_short : String → Result Node × S → Result Node × S
  unfolding search_list
  search_short hostname (ok n, s) = (ok n, s)
  search_short hostname (err e, s) =
      let short = lower (short_hostname hostname) in
      if short == lower hostname
      then search_list hostname (err e, s)
      else search_list hostname (remote.get_node short s)

  -- `findNodeByHostname`
  unfoldable pub find_node_by_hostname : String → M S Node
  unfolding search_short
  find_node_by_hostname hostname s =
      if hostname == ""
      then (err (message "hostname cannot be empty"), s)
      else search_short hostname (remote.get_node (lower hostname) s)

  patch_node : String → Node → M S (Unit {0})
  patch_node provider_id n =
      if n.provider_id == provider_id then return tt else remote.patch_provider_id n provider_id

  set_provider_id_of_node : String → String → M S (Unit {0})
  unfolding patch_node
  set_provider_id_of_node hostname provider_id =
      wrapping ("failed to find node for hostname " <> hostname) (find_node_by_hostname hostname)
      >>= patch_node provider_id

module _ {S : Type 0} (lower : String → String) (tracker : Tracker S) where
  -- `SetNodeProviderID`
  unfoldable pub set_node_provider_id : M (Live S) (Unit {0})
  unfolding set_provider_id_of_node
  set_node_provider_id = current >>= λ mm. lift (
      tracker.get_client >>= λ remote.
      set_provider_id_of_node lower remote (deref mm.status.hostname) (deref mm.spec.provider_id))

  nodes_listed : Result (List Node) × S → Result Bool × S
  nodes_listed (ok ns, s) = (ok true, s)
  nodes_listed (err e, s) = (ok false, s)

  remote_online : Result (Remote S) × S → Result Bool × S
  unfolding nodes_listed
  remote_online (err e, s) = (ok false, s)
  remote_online (ok remote, s) = nodes_listed (remote.list_nodes s)

  -- `IsAPIServerOnline`
  unfoldable pub is_api_server_online : M S Bool
  unfolding remote_online
  is_api_server_online = tracker.is_deleting >>= λ deleting.
      if deleting then fail (message "Cluster is deleting; abort IsAPIServerOnline") else λ s.
      remote_online (tracker.get_client s)
