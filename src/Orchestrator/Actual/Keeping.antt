-- ===== src/Orchestrator/Actual/Keeping.antt =====
-- The goroutine of cmd/carisma-orchestrator/app/app.go that keeps the file of the actual state on
-- the central node. The package for JSON and what the file system answers are arguments.
pub mod Held
use car_integrated_service_m.Prelude.{
  ℕ, ◌+◌, length, ℤ, eqb_ℤ, Bytes, Bool, true, false, not, List, [], ◌∷◌, Option, none, some, Assoc,
  if◌then◌else◌, Outcome, ok, err, panic,
}
use car_integrated_service_m.Config.Deployment.{NodeConfig, DeploymentConfig}
use car_integrated_service_m.Registry.Node.{DeploymentMessage, state_type_actual}
use car_integrated_service_m.Orchestrator.Actual.{requests_diff, report}

-- Decoding and encoding of a map that can be nil: the map that is left and whether there is an
-- error, and the text or an error.
pub record MapCodec : Type 0 where
  pub decode : Bytes → Option DeploymentConfig × Bool
  pub encode : Option DeploymentConfig → Option Bytes

-- The actual states, the content of the file if it can be read, how often a difference of the
-- desired file was forced, and whether a panic has ended the program.
pub record Keeper : Type 0 where
  pub actual : DeploymentConfig
  pub file : Option Bytes
  pub forced : ℕ
  pub crashed : Bool

-- What a write of the file gives: all is written, or an error, behind which the file has some content
-- or cannot be read.
pub data FileWrite : Type 0 where
  complete : FileWrite
  incomplete : Option Bytes → FileWrite

-- What the file system answers while a message is handled: whether the file, if there is one, is
-- read, and what the write gives.
pub record FileAccess : Type 0 where
  pub readable : Bool
  pub write : FileWrite

-- A nil map has no entries.
abbrev pub entries_of : Option DeploymentConfig → DeploymentConfig
entries_of none = []
entries_of (some d) = d

module _ (codec : MapCodec) (visit : DeploymentConfig → Assoc NodeConfig) where
  -- The configuration that the file is read as: an empty one where the file cannot be read.
  unfoldable pub previous : Option Bytes → Option DeploymentConfig
  previous none = some []
  previous (some text) = (codec.decode text).0

  -- One message, with what the file system answers.
  unfoldable pub receive_report : DeploymentMessage → FileAccess → Keeper → Keeper
  unfolding previous
  receive_report msg access k =
      let (reported, failed) = codec.decode msg.json in
      if not (eqb_ℤ msg.state_type state_type_actual)
      then k
      else if failed
      then k
      else let seen = visit (entries_of reported) in
        let forced = if requests_diff (length seen) seen then k.forced + 1 else k.forced in
        let (actual, r) =
          report {E = Unit {0}} (previous (if access.readable then k.file else none)) k.actual seen
            visit in
        elim r [
          | err e ↦ k
          | panic ↦ record { actual = actual; file = k.file; forced = forced; crashed = true }
          | ok next ↦ record {
            actual = actual;
            file = elim (codec.encode next) [
              | none ↦ k.file
              | some text ↦ elim access.write [ complete ↦ some text | incomplete left ↦ left ]
            ];
            forced = forced;
            crashed = false;
          }
        ]

  -- The messages that are received, each with what the file system answers then.
  unfoldable pub receive_reports : List (DeploymentMessage × FileAccess) → Keeper → Keeper
  unfolding receive_report
  receive_reports [] k = k
  receive_reports ((msg, access) ∷ msgs) k =
      let k' = receive_report msg access k in
      elim k'.crashed [ true ↦ k' | false ↦ receive_reports msgs k' ]
