-- ===== src/Config/Loading.antt =====
-- Loading the settings, and the directories that go with them.
use serwebs.Prelude.{String, Bool, Option, none, some, List, [], ◌∷◌, ◌++◌, if◌then◌else◌}
use serwebs.Auth.{Result, ok, raised}
use serwebs.Config.{AppConfig, defaults}

-- `pathlib.Path`, as its parts.
pub record FilePath : Type 0 where
  pub absolute : Bool
  pub parts : List String

abbrev pub init : List String → List String
init [] = []
init (p ∷ []) = []
init (p ∷ q ∷ ps) = p ∷ init (q ∷ ps)

abbrev pub parent : FilePath → FilePath
parent p = record p { parts = init p.parts }

-- `p / q`, for a relative `q`
abbrev pub under : FilePath → FilePath → FilePath
under p q = record p { parts = p.parts ++ q.parts }

-- What a file of settings holds: nothing that is there, something that raises, or settings.
pub data Source : Type 0 where
  missing broken : Source
  settings : AppConfig → Source

pub record Surroundings : Type 0 where
  -- `os.environ.get("SERWEBS_CONFIG")`
  pub environ : Option String
  pub to_path : String → FilePath
  pub default_path : FilePath
  pub read : FilePath → Source

-- `_config` and `_config_path`
pub record State : Type 0 where
  pub config : Option AppConfig
  pub config_path : Option FilePath

abbrev pub started : State
started = record { config = none; config_path = none }

-- `Path(os.environ.get("SERWEBS_CONFIG", str(path or _DEFAULT_CONFIG_PATH)))`
unfoldable pub path_of : Surroundings → Option FilePath → FilePath
path_of out path = elim out.environ [
  | some text ↦ out.to_path text
  | none ↦ elim path [ some p ↦ p | none ↦ out.default_path ]
]

-- `AppConfig(**data)` for what the file holds.
abbrev pub parsed : Source → Result AppConfig
parsed missing = ok defaults
parsed broken = raised
parsed (settings cfg) = ok cfg

abbrev pub stored : State → FilePath → Result AppConfig → Result AppConfig × State
stored s path (ok cfg) = (ok cfg, record { config = some cfg; config_path = some path })
stored s path raised = (raised, record s { config_path = some path })

unfoldable pub load_config : Surroundings → State → Option FilePath → Result AppConfig × State
unfolding path_of
load_config out s path = stored s (path_of out path) (parsed (out.read (path_of out path)))

unfoldable pub get_config : Surroundings → State → Result AppConfig × State
unfolding load_config
get_config out s = elim s.config [ none ↦ load_config out s none | some cfg ↦ (ok cfg, s) ]

unfoldable pub get_config_dir : Surroundings → State → FilePath
unfolding path_of
get_config_dir out s = elim s.config_path [ some p ↦ parent p | none ↦ parent (path_of out none) ]

-- `AppConfig.get_data_dir`; the directory is made if it is not there.
unfoldable pub get_data_dir : Surroundings → AppConfig → FilePath
unfolding path_of
get_data_dir out cfg =
    let d = out.to_path cfg.data_files.directory in
    if d.absolute then d else under (parent (path_of out none)) d
