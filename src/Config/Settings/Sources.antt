-- ===== src/Config/Settings/Sources.antt =====
-- Which source of the settings wins.
use car_integrated_service_m.Prelude.{
  Bytes, Bool, List, [], ◌∷◌, if◌then◌else◌, Outcome, ok, err, ◌≡◌, refl, arith, panic, subst,
}
use car_integrated_service_m.Config.Settings.{
  Config, Decoder, Flag, ConfigFile, ConfigError, missing, unreadable, readable, flag_central_mode,
  flag_central_node, flag_node, apply_flag, apply_commandline_flags, fix, default, new, read_failed,
  invalid_json,
}

-- The last value that the command line gives, or else the value without it.
abbrev pub last_node : Bytes → List Flag → Bytes
last_node d [] = d
last_node d (flag_node s ∷ fs) = last_node s fs
last_node d (_ ∷ fs) = last_node d fs

abbrev pub last_central_node : Bytes → List Flag → Bytes
last_central_node d [] = d
last_central_node d (flag_central_node s ∷ fs) = last_central_node s fs
last_central_node d (_ ∷ fs) = last_central_node d fs

abbrev pub last_central_mode : Bool → List Flag → Bool
last_central_mode d [] = d
last_central_mode d (flag_central_mode b ∷ fs) = last_central_mode b fs
last_central_mode d (_ ∷ fs) = last_central_mode d fs

flags_lem :
    (c : Config) (fs : List Flag)
    → ((apply_commandline_flags c fs).node_hostname ≡ last_node c.node_hostname fs)
      × ((apply_commandline_flags c fs).central_node_hostname
          ≡ last_central_node c.central_node_hostname fs)
      × ((apply_commandline_flags c fs).enable_central_mode
          ≡ last_central_mode c.enable_central_mode fs)
unfolding apply_commandline_flags
flags_lem c [] = (refl, refl, refl)
flags_lem c (flag_node s ∷ fs) = flags_lem _ fs
flags_lem c (flag_central_node s ∷ fs) = flags_lem _ fs
flags_lem c (flag_central_mode s ∷ fs) = flags_lem _ fs
flags_lem c (f ∷ fs) = flags_lem (apply_flag c f) fs

-- The settings before the command line: the defaults, or what the decoder makes of them and the file.
abbrev pub loaded : Decoder → Bytes → ConfigFile → Outcome ConfigError Config
loaded unmarshal hostname missing = ok (default hostname)
loaded unmarshal hostname unreadable = err read_failed
loaded unmarshal hostname (readable content) =
    if (unmarshal content (default hostname)).1
    then err invalid_json
    else ok (unmarshal content (default hostname)).0

fix_flags :
    (base : Config) (flags : List Flag)
    → let c = fix (apply_commandline_flags base flags) in
      let node = last_node base.node_hostname flags in
      (c.node_hostname ≡ node)
      × (c.enable_central_mode ≡ last_central_mode base.enable_central_mode flags)
      × (c.central_node_hostname ≡ (
          if last_central_mode base.enable_central_mode flags
          then node
          else last_central_node base.central_node_hostname flags))
unfolding fix
fix_flags base flags = ground (arith, flags_lem base flags)

-- What the sources decide, for settings that are made from `base`.
abbrev pub IsMadeFrom : Config → List Flag → Config → Type 0
IsMadeFrom base flags c =
    (c.node_hostname ≡ last_node base.node_hostname flags)
    × (c.enable_central_mode ≡ last_central_mode base.enable_central_mode flags)
    × (c.central_node_hostname ≡ (
        if last_central_mode base.enable_central_mode flags
        then last_node base.node_hostname flags
        else last_central_node base.central_node_hostname flags))

new-eq :
    (unmarshal : Decoder) (hostname : Bytes) (file : ConfigFile) (flags : List Flag)
    → new unmarshal hostname file flags ≡ elim (loaded unmarshal hostname file) [
      | ok base ↦ ok (fix (apply_commandline_flags base flags))
      | err e ↦ err e
      | panic ↦ panic
    ]
unfolding new
new-eq unmarshal hostname missing flags = refl
new-eq unmarshal hostname unreadable flags = refl
new-eq unmarshal hostname (readable content) flags = ground arith

-- Settings are made only if the file is missing, or is read and decoded. Over the file's values,
-- which stand over the defaults, the last flag of the command line wins; and in central mode the
-- central node is the node itself, whatever the sources say of it.
pub new_lem :
    (unmarshal : Decoder) (hostname : Bytes) (file : ConfigFile) (flags : List Flag) (c : Config)
    → new unmarshal hostname file flags ≡ ok c
    → (base : Config) × (loaded unmarshal hostname file ≡ ok base) × IsMadeFrom base flags c
new_lem unmarshal hostname file flags c made = from (loaded unmarshal hostname file) refl
  where
    from :
        (o : Outcome ConfigError Config)
        → loaded unmarshal hostname file ≡ o
        → (base : Config) × (loaded unmarshal hostname file ≡ ok base) × IsMadeFrom base flags c
    from (ok base) e =
        let same : fix (apply_commandline_flags base flags) ≡ c =
          ground (arith, new-eq unmarshal hostname file flags) in
        (base, e, subst (IsMadeFrom base flags) same (fix_flags base flags))
    from (err x) e = absurd (ground (arith, new-eq unmarshal hostname file flags))
    from panic e = absurd (ground (arith, new-eq unmarshal hostname file flags))

-- Where the settings file is there and cannot be read or decoded, there are no settings.
pub new_fails :
    (unmarshal : Decoder) (hostname : Bytes) (file : ConfigFile) (flags : List Flag)
    (x : ConfigError)
    → loaded unmarshal hostname file ≡ err x
    → new unmarshal hostname file flags ≡ err x
new_fails unmarshal hostname file flags x e = ground (arith, new-eq unmarshal hostname file flags)
