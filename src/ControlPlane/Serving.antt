-- ===== src/ControlPlane/Serving.antt =====
-- `Run` of cmd/carisma-control-plane/app/app.go: where the control plane listens, and how it ends.
-- What the environment answers is an argument. Errors that are only logged are left out.
use car_integrated_service_m.Prelude.{
  ℕ, itoa_int, Bytes, codes, Bool, true, false, [], ◌∷◌, ◌++◌, Option, none, some, Outcome, ok, err,
  panic, any, ◌==◌, if◌then◌else◌, Lacks, ◌≡◌, refl, ap, sym, append_assoc, ◌∙◌, arith,
}
use car_integrated_service_m.Config.Settings.{Config, ConfigError}
use car_integrated_service_m.Registry.Node.{join_host_port}
use car_integrated_service_m.Orchestrator.Run.{control_plane_target}

-- What `grpcServer.Serve` does with a listener, which may be nil: it serves until it is stopped, gives
-- an error, or panics.
pub data Served : Type 0 where
  until_stopped failed crashed : Served

-- Whether there can be a listener at an address, and what is served with it.
pub record Environment : Type 0 where
  pub listen : Bytes → Bool
  pub serve : Option Bytes → Served

-- The function returns when a signal has come, unless the process is killed by a panic before.
pub data Ending : Type 0 where
  refused stopped killed : Ending

pub record Exit : Type 0 where
  pub served_at : Option Bytes
  pub ending : Ending

-- `net.JoinHostPort("", strconv.Itoa(cfg.GRPCPort))`
unfoldable pub listen_address : Config → Bytes
listen_address cfg = join_host_port [] (itoa_int cfg.grpc_port)

unfoldable pub run : Environment → Outcome ConfigError Config → Exit
unfolding listen_address
run env (err e) = record { served_at = none; ending = refused }
run env panic = record { served_at = none; ending = killed }
run env (ok cfg) =
    let addr = listen_address cfg in
    let lis = if env.listen addr then some addr else none in
    elim (env.serve lis) [
      | crashed ↦ record { served_at = none; ending = killed }
      | failed ↦ record { served_at = none; ending = stopped }
      | until_stopped ↦ record { served_at = lis; ending = stopped }
    ]

any-Lacks : (c : ℕ) (s : Bytes) → Lacks c s → any (λ d. d == c) s ≡ false
any-Lacks c [] h = refl
any-Lacks c (d ∷ s) h = ground (arith, any-Lacks c s h.1)

served :
    (env : Environment) (cfg : Config)
    → env.listen (listen_address cfg) ≡ true
    → env.serve (some (listen_address cfg)) ≡ until_stopped
    → run env (ok cfg) ≡ record { served_at = some (listen_address cfg); ending = stopped }
unfolding run
served env cfg listens serves = ground (arith, listens, serves)

-- A control plane and a node with the same port, where an address can be listened at and served, and
-- the name of the central node has no colon: what the node dials is that name, and behind it the
-- address at which the control plane listens.
pub dials_control_plane :
    (env : Environment) (central node : Config)
    → central.grpc_port ≡ node.grpc_port
    → Lacks b':' node.central_node_hostname
    → env.listen (listen_address central) ≡ true
    → env.serve (some (listen_address central)) ≡ until_stopped
    → (addr : Bytes) × (run env (ok central) ≡ record { served_at = some addr; ending = stopped })
      × (control_plane_target node ≡ node.central_node_hostname ++ addr)
unfolding run
dials_control_plane env central node same_port plain listens serves = (
  listen_address central,
  served env central listens serves,
  (unfold control_plane_target join_host_port listen_address in
      rw (control_plane_target, join_host_port, any-Lacks b':' node.central_node_hostname plain)
        (append_assoc node.central_node_hostname (codes ":") (itoa_int node.grpc_port)
          ∙ ap (λ z. node.central_node_hostname ++ b':' ∷ itoa_int z) (sym same_port))),
)
