-- ===== src/Tests/Settings.antt =====
-- The settings at concrete inputs.
use car_integrated_service_m.Prelude.{pos, codes, ◌≡◌, refl, List, [], ◌∷◌, true, false, ok}
use car_integrated_service_m.Config.Settings.{
  Config, Decoder, ConfigFile, readable, new, default, flag_central_mode, Flag,
}
use car_integrated_service_m.Config.Settings.Sources.{loaded, IsMadeFrom, new_lem}

-- The values of the file in config_test.go.
abbrev decoder : Decoder
decoder content c = (
  record c { enable_central_mode = false; node_hostname = codes "localhost"; grpc_port = pos 8042 },
  false,
)

abbrev file : ConfigFile
file = readable (codes "{}")

abbrev flags : List Flag
flags = flag_central_mode true ∷ []

abbrev expected : Config
expected = record (default (codes "hpc-0")) {
  enable_central_mode = true;
  central_node_hostname = codes "localhost";
  node_hostname = codes "localhost";
  grpc_port = pos 8042;
}

new_test : new decoder (codes "hpc-0") file flags ≡ ok expected
unfolding new
new_test = refl

new_lem_test :
    (base : Config) × (loaded decoder (codes "hpc-0") file ≡ ok base)
    × IsMadeFrom base flags expected
new_lem_test = new_lem decoder (codes "hpc-0") file flags expected new_test
