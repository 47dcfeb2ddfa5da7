-- ===== src/Tests/Keepers.antt =====
-- The file of the actual state at concrete messages.
use car_integrated_service_m.Prelude.{
  Bytes, codes, text_eq, List, [], ◌∷◌, none, some, true, false, Assoc, lookup, insert,
  lookup-insert, insert-IsUnique, length, take, drop, take-length, drop-length, head_or, zero, suc,
  ℕ, ap, IsListing, ◌≡◌, ◌≢◌, refl, inl, arith, ◌++◌, IsUnique,
}
use car_integrated_service_m.Config.Deployment.{NodeConfig, DeploymentConfig}
use car_integrated_service_m.Registry.Node.{DeploymentMessage, state_type_actual}
use car_integrated_service_m.Orchestrator.Actual.Keeping.{
  FileAccess, complete, MapCodec, Keeper, previous, receive_reports,
}
use car_integrated_service_m.Orchestrator.Actual.Keeping.Held.{
  IsFaithful, IsStopping, receive_reports-IsStopping,
}

-- The entries of a map, each key once.
abbrev visit : DeploymentConfig → Assoc NodeConfig
visit [] = []
visit ((k, v) ∷ m) = insert k v (visit m)

visit-IsUnique : (m : DeploymentConfig) → IsUnique (visit m)
visit-IsUnique [] = tt
visit-IsUnique ((k, v) ∷ m) = insert-IsUnique k v (visit m) (visit-IsUnique m)

lookup-visit : (k : Bytes) (m : DeploymentConfig) → lookup k (visit m) ≡ lookup k m
unfolding lookup
lookup-visit k [] = refl
lookup-visit k ((j, v) ∷ m) = ground (arith, lookup-insert j k v (visit m), lookup-visit k m)

listing : (m : DeploymentConfig) → IsListing (visit m) m
listing m = record { unique = visit-IsUnique m; same = λ k. lookup-visit k m }

-- A codec that writes the length in front of every text and list, and the rest of what it reads.
abbrev put : Bytes → Bytes → Bytes
put s rest = length s ∷ (s ++ rest)

abbrev get : Bytes → Bytes × Bytes
get [] = ([], [])
get (n ∷ s) = (take n s, drop n s)

abbrev put_all : List Bytes → Bytes → Bytes
put_all [] rest = rest
put_all (s ∷ ss) rest = put s (put_all ss rest)

abbrev get_all : ℕ → Bytes → List Bytes × Bytes
get_all zero s = ([], s)
get_all (suc n) s = let (t, s') = get s in let (ts, rest) = get_all n s' in (t ∷ ts, rest)

get_all-put_all :
    (ss : List Bytes) (rest : Bytes) → get_all (length ss) (put_all ss rest) ≡ (ss, rest)
get_all-put_all [] rest = refl
get_all-put_all (s ∷ ss) rest =
    rw (take-length s (put_all ss rest), drop-length s (put_all ss rest), get_all-put_all ss rest)
      refl

abbrev put_nodes : DeploymentConfig → Bytes
put_nodes [] = []
put_nodes ((host, node) ∷ d) =
    put host (put node.state (length node.images ∷ put_all node.images (put_nodes d)))

abbrev get_node : Bytes → NodeConfig × Bytes
get_node s =
    let (state, s') = get s in
    let (images, rest) = get_all (head_or 0 s') (drop 1 s') in
    (record { state = state; images = images }, rest)

abbrev get_nodes : ℕ → Bytes → DeploymentConfig
get_nodes zero s = []
get_nodes (suc n) s =
    let (host, s') = get s in let (node, rest) = get_node s' in (host, node) ∷ get_nodes n rest

get_nodes-put_nodes : (d : DeploymentConfig) → get_nodes (length d) (put_nodes d) ≡ d
get_nodes-put_nodes [] = refl
get_nodes-put_nodes ((host, node) ∷ d) =
    rw
      (
        take-length host (put node.state (length node.images ∷ put_all node.images (put_nodes d))),
        drop-length host (put node.state (length node.images ∷ put_all node.images (put_nodes d))),
        take-length node.state (length node.images ∷ put_all node.images (put_nodes d)),
        drop-length node.state (length node.images ∷ put_all node.images (put_nodes d)),
        get_all-put_all node.images (put_nodes d),
        get_nodes-put_nodes d,
      )
      refl

abbrev codec : MapCodec
codec = record {
  decode = λ s. (some (get_nodes (head_or 0 s) (drop 1 s)), false);
  encode = λ o. elim o [ none ↦ none | some d ↦ some (length d ∷ put_nodes d) ];
}

faithful : IsFaithful codec
faithful d = (length d ∷ put_nodes d, refl, ap (λ e. (some e, false)) (get_nodes-put_nodes d))

abbrev in_state : Bytes → DeploymentConfig
in_state state = (codes "a", record { state = state; images = codes "app:1" ∷ [] }) ∷ []

abbrev message_of : DeploymentConfig → DeploymentMessage
message_of d = record { json = length d ∷ put_nodes d; state_type = state_type_actual }

abbrev accessible : FileAccess
accessible = record { readable = true; write = complete }

-- The node is marked as stopping in the file, and still reports that it runs.
abbrev messages : List (DeploymentMessage × FileAccess)
messages =
    (message_of (in_state (codes "running")), accessible)
    ∷ (message_of (in_state (codes "starting")), accessible)
    ∷ (message_of [], accessible)
    ∷ []

running_is_no_stop : codes "running" ≢ codes "stopped"
running_is_no_stop e = let first = ap (head_or 0) e in omega arith

starting_is_no_stop : codes "starting" ≢ codes "stopped"
starting_is_no_stop e = let lengths = ap length e in omega arith

nothing_is_no_stop : [] ≢ codes "stopped"
nothing_is_no_stop e = let lengths = ap length e in omega arith

abbrev keeper : Keeper
keeper = record {
  actual = [];
  file = some (length (in_state (codes "stopping")) ∷ put_nodes (in_state (codes "stopping")));
  forced = 0;
  crashed = false;
}

keeper-IsStopping : IsStopping codec visit (codes "a") keeper
unfolding previous lookup text_eq
keeper-IsStopping = record {
  written = in_state (codes "stopping");
  read = refl;
  stopping = refl;
  up = inl refl;
  alive = refl;
}

receive_reports-IsStopping_example :
    IsStopping codec visit (codes "a") (receive_reports codec visit messages keeper)
unfolding lookup text_eq
receive_reports-IsStopping_example =
    receive_reports-IsStopping codec visit (codes "a") faithful listing messages keeper
      (
        (running_is_no_stop, refl, refl),
        ((starting_is_no_stop, refl, refl), ((nothing_is_no_stop, refl, refl), tt)),
      )
      keeper-IsStopping
