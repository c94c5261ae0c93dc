-- ===== src/Tests/ToyConfig.antt =====
-- A configuration with one mirror that leaves most to the defaults.
use umleitung.Base.{◌≡◌, refl, false, true, none, [], ◌∷◌}
use umleitung.Base.Text.{Text, codes, pos, join, ◌==◌}
use umleitung.Config.{Config, Mirror, RawEndpoint, RawMirror, RawConfig, absent}
use umleitung.Config.Paths.{clean, join_path, clean_all, clean_step, elements}
use umleitung.Config.Defaults.{
  default_str, default_int, default_bool, opt_string, lower_word, is_log_level, is_seed_mode,
  name_matches, is_replacement, is_keyword_char,
}
use umleitung.Config.Endpoints.{resolve_endpoint}
use umleitung.Config.Resolve.{
  mirror_of, head_of, head_faults, resolve, valid, scan_mirrors, mirror_faults, name_faults,
  where_of, setting_faults, path_owner,
}
use umleitung.Base.{Option}

abbrev pub no_file : Text → Option Text
no_file path = none

abbrev raw_endpoint : Text → RawEndpoint
raw_endpoint host = record {
  host = host;
  port = pos 0;
  user = codes "me";
  password = codes "secret";
  password_file = [];
  folder = [];
  inbox = [];
  tls = none;
}

abbrev raw_mirror : RawMirror
raw_mirror = record {
  name = codes "mail";
  state_path = [];
  poll_interval = pos 0;
  idle_reset = pos 0;
  uid_batch = pos 0;
  seed = [];
  dest_guard = none;
  carry_seen = none;
  source = raw_endpoint (codes "a");
  dest = raw_endpoint (codes "b");
  archive = record { enabled = true; folder = [] };
  sent = record { enabled = false; folder = []; source_folder = [] };
  labels = record {
    enabled = true;
    propagate = false;
    exclude = [];
    keyword_prefix = codes "$label:";
    keyword_replacement = [];
  };
}

abbrev pub raw_config : RawConfig
raw_config = record {
  health_addr = absent;
  log_level = [];
  state_dir = [];
  lock_path = [];
  mirrors = raw_mirror ∷ [];
}

abbrev pub mirror : Mirror
mirror = mirror_of no_file (codes "/state") raw_mirror

abbrev pub config : Config
config = record (head_of raw_config) { mirrors = mirror ∷ [] }

pub config-valid : resolve no_file raw_config ≡ valid config
unfolding resolve scan_mirrors mirror_faults mirror_of name_faults where_of setting_faults head_of
    head_faults path_owner default_str default_int default_bool opt_string lower_word is_log_level
    is_seed_mode name_matches is_replacement is_keyword_char resolve_endpoint clean join_path
    clean_all clean_step elements join ◌==◌
config-valid = refl
