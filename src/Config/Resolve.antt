-- ===== src/Config/Resolve.antt =====
-- `resolve`: defaults and checks. The errors are values; their texts are left out.
use umleitung.Base.{
  ℕ, suc, Bool, true, false, not, ◌&&◌, Option, none, some, List, [], ◌∷◌, ◌++◌, if◌then◌else◌,
}
use umleitung.Base.Text.{Text, codes, contains, ◌==◌, pos}
use umleitung.Config.{Mirror, Config, RawMirror, RawConfig}
use umleitung.Config.Paths.{clean, join_path}
use umleitung.Config.Defaults.{
  default_str, default_int, default_bool, OptString, undecoded, set_to, opt_string, lower_word,
  is_log_level, is_seed_mode, name_matches, is_replacement, is_negative, below_one,
}
use umleitung.Config.Endpoints.{EndpointFault, resolve_endpoint}

-- what an error is about: the mirror of a name, or of a number if it has none
pub data Where : Type 0 where
  named : Text → Where
  numbered : ℕ → Where

pub data Fault : Type 0 where
  bad_health_addr bad_log_level no_mirrors : Fault
  no_name bad_name duplicate_name : Where → Fault
  -- with the name of the other mirror
  state_path_used : Where → Text → Fault
  bad_source bad_dest : Where → EndpointFault → Fault
  bad_seed propagate_without_labels bad_replacement : Where → Fault
  archive_is_dest sent_is_dest sent_is_archive : Where → Fault
  bad_uid_batch bad_poll_interval bad_idle_reset : Where → Fault

abbrev pub fault_if : Bool → Fault → List Fault
fault_if true f = f ∷ []
fault_if false f = []

-- 15 min and 25 min in nanoseconds
abbrev pub default_poll_interval : ℕ
default_poll_interval = 900000000000

abbrev pub default_idle_reset : ℕ
default_idle_reset = 1500000000000

module _ (read_file : Text → Option Text) (state_dir : Text) where
  unfoldable pub mirror_of : RawMirror → Mirror
  mirror_of rm = record {
    name = rm.name;
    state_path = default_str rm.state_path (join_path state_dir (rm.name ++ codes ".db"));
    poll_interval = default_int rm.poll_interval (pos default_poll_interval);
    idle_reset = default_int rm.idle_reset (pos default_idle_reset);
    uid_batch = default_int rm.uid_batch (pos 2000);
    seed = lower_word (default_str rm.seed (codes "empty"));
    dest_guard = default_bool rm.dest_guard true;
    carry_seen = default_bool rm.carry_seen true;
    source = (resolve_endpoint read_file rm.source).0;
    dest = (resolve_endpoint read_file rm.dest).0;
    archive = record {
      enabled = rm.archive.enabled;
      folder = default_str rm.archive.folder (codes "Archive");
    };
    sent = record {
      enabled = rm.sent.enabled;
      folder = default_str rm.sent.folder (codes "Sent");
      source_folder = default_str rm.sent.source_folder (codes "\\Sent");
    };
    labels = record {
      enabled = rm.labels.enabled;
      propagate = rm.labels.propagate;
      exclude = rm.labels.exclude;
      keyword_prefix = rm.labels.keyword_prefix;
      keyword_replacement = default_str rm.labels.keyword_replacement (codes "_");
    };
  }

-- `where` of the i-th mirror, from 0
unfoldable pub where_of : ℕ → Text → Where
where_of i name = if name == codes "" then numbered (suc i) else named name

unfoldable pub name_faults : Where → Text → List Text → List Fault
name_faults w name names =
    if name == codes ""
    then no_name w ∷ []
    else if not (name_matches name)
    then bad_name w ∷ []
    else fault_if (contains names name) (duplicate_name w)

-- the map from cleaned state paths to the mirrors that use them, the last entry first
unfoldable pub path_owner : List (Text × Text) → Text → Option Text
path_owner [] path = none
path_owner ((p, name) ∷ paths) path = if p == path then some name else path_owner paths path

abbrev pub path_faults : Where → Option Text → List Fault
path_faults w none = []
path_faults w (some other) = state_path_used w other ∷ []

abbrev pub endpoint_faults : (EndpointFault → Fault) → Option EndpointFault → List Fault
endpoint_faults f none = []
endpoint_faults f (some e) = f e ∷ []

-- the checks from the seed mode on
unfoldable pub setting_faults : Where → Mirror → List Fault
setting_faults w m =
    fault_if (not (is_seed_mode m.seed)) (bad_seed w)
    ++ (fault_if (m.labels.propagate && not m.labels.enabled) (propagate_without_labels w)
        ++ (fault_if (not (is_replacement m.labels.keyword_replacement)) (bad_replacement w)
            ++ (fault_if (m.archive.enabled && m.archive.folder == m.dest.folder)
                  (archive_is_dest w)
                ++ (fault_if (m.sent.enabled && m.sent.folder == m.dest.folder) (sent_is_dest w)
                    ++ (fault_if
                          (m.sent.enabled
                            && (m.archive.enabled && m.sent.folder == m.archive.folder))
                          (sent_is_archive w)
                        ++ (fault_if (below_one m.uid_batch) (bad_uid_batch w)
                            ++ (fault_if (is_negative m.poll_interval) (bad_poll_interval w)
                                ++ fault_if (is_negative m.idle_reset) (bad_idle_reset w))))))))

-- the variables of the loop
pub record Scan : Type 0 where
  pub names : List Text
  pub state_paths : List (Text × Text)
  pub faults : List Fault
  pub mirrors : List Mirror

module _ (read_file : Text → Option Text) (state_dir : Text) where
  unfoldable pub mirror_faults : ℕ → RawMirror → Scan → List Fault
  mirror_faults i rm s =
      let w = where_of i rm.name in
      let m = mirror_of read_file state_dir rm in
      name_faults w rm.name s.names
      ++ (path_faults w (path_owner s.state_paths (clean m.state_path))
          ++ (endpoint_faults (bad_source w) (resolve_endpoint read_file rm.source).1
              ++ (endpoint_faults (bad_dest w) (resolve_endpoint read_file rm.dest).1
                  ++ setting_faults w m)))

  abbrev pub scan_mirror : ℕ → RawMirror → Scan → Scan
  scan_mirror i rm s =
      let m = mirror_of read_file state_dir rm in
      record {
        names = rm.name ∷ s.names;
        state_paths = (clean m.state_path, rm.name) ∷ s.state_paths;
        faults = s.faults ++ mirror_faults i rm s;
        mirrors = s.mirrors ++ (m ∷ []);
      }

  unfoldable pub scan_mirrors : ℕ → List RawMirror → Scan → Scan
  scan_mirrors i [] s = s
  scan_mirrors i (rm ∷ rms) s = scan_mirrors (suc i) rms (scan_mirror i rm s)

pub data Outcome : Type 0 where
  invalid : List Fault → Outcome
  valid : Config → Outcome

abbrev pub health_addr_of : OptString → Text
health_addr_of (set_to v) = v
health_addr_of _ = codes ":8080"

abbrev pub health_faults : OptString → List Fault
health_faults undecoded = bad_health_addr ∷ []
health_faults _ = []

abbrev pub no_mirrors_faults : List RawMirror → List Fault
no_mirrors_faults [] = no_mirrors ∷ []
no_mirrors_faults (rm ∷ rms) = []

unfoldable pub head_of : RawConfig → Config
head_of raw =
    let dir = default_str raw.state_dir (codes "/state") in
    record {
      health_addr = health_addr_of (opt_string raw.health_addr);
      log_level = lower_word (default_str raw.log_level (codes "info"));
      state_dir = dir;
      lock_path = default_str raw.lock_path (join_path dir (codes "umleiter.lock"));
      mirrors = [];
    }

unfoldable pub head_faults : RawConfig → List Fault
head_faults raw =
    health_faults (opt_string raw.health_addr)
    ++ (fault_if (not (is_log_level (head_of raw).log_level)) bad_log_level
        ++ no_mirrors_faults raw.mirrors)

abbrev pub concluded : Config → Scan → Outcome
concluded cfg s = elim s.faults [
  | [] ↦ valid (record cfg { mirrors = s.mirrors })
  | f ∷ fs ↦ invalid (f ∷ fs)
]

-- `read_file` is `os.ReadFile`
unfoldable pub resolve : (Text → Option Text) → RawConfig → Outcome
resolve read_file raw =
    let cfg = head_of raw in
    concluded cfg (
      scan_mirrors read_file cfg.state_dir 0 raw.mirrors
        (record { names = []; state_paths = []; faults = head_faults raw; mirrors = [] }))
