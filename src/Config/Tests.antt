-- ===== src/Config/Tests.antt =====
-- Settings given on the command line.
use serwebs.Prelude.{◌≡◌, refl, true, false, none, some, [], ◌∷◌}
use serwebs.Config.{defaults}
use serwebs.Config.Loading.{
  FilePath, Surroundings, State, settings, started, load_config, get_config_dir, path_of,
  get_data_dir,
}

abbrev given : FilePath
given = record { absolute = true; parts = "etc" ∷ "serwebs" ∷ "my.toml" ∷ [] }

abbrev shell : Surroundings
shell = record {
  environ = none;
  to_path = λ s. record { absolute = false; parts = s ∷ [] };
  default_path = record { absolute = true; parts = "opt" ∷ "config.toml" ∷ [] };
  read = λ p. settings defaults;
}

abbrev loaded : State
loaded = record { config = some defaults; config_path = some given }

-- The file that was given is loaded, and its directory is that of the settings.
given_is_loaded : (load_config shell started (some given)).1 ≡ loaded
unfolding load_config path_of
given_is_loaded = refl

settings_are_there :
    get_config_dir shell loaded ≡ record { absolute = true; parts = "etc" ∷ "serwebs" ∷ [] }
unfolding get_config_dir path_of
settings_are_there = refl

-- The data directory is not beside the file that was given.
data_is_elsewhere :
    get_data_dir shell defaults ≡ record { absolute = true; parts = "opt" ∷ "data" ∷ [] }
unfolding get_data_dir path_of
data_is_elsewhere = refl
