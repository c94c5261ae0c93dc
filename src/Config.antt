-- ===== src/Config.antt =====
-- internal/config/config.go: the configuration, as the YAML file gives it and as the program uses it.
pub mod Paths
pub mod Defaults
pub mod Endpoints
pub mod Resolve
pub mod Valid
pub mod Checks
pub mod Accepted
pub mod Refused
pub mod Complete
use umleitung.Base.{ℕ, Bool, Option, List}
use umleitung.Base.Text.{Text, ℤ}

-- `Endpoint`
pub record Endpoint : Type 0 where
  pub host : Text
  pub port : ℤ
  pub user : Text
  pub password : Text
  pub folder : Text
  pub inbox : Text
  pub tls : Bool

pub record Archive : Type 0 where
  pub enabled : Bool
  pub folder : Text

pub record Sent : Type 0 where
  pub enabled : Bool
  pub folder : Text
  pub source_folder : Text

pub record Labels : Type 0 where
  pub enabled : Bool
  pub propagate : Bool
  pub exclude : List Text
  pub keyword_prefix : Text
  pub keyword_replacement : Text

-- `Mirror`; the durations in nanoseconds, `seed` the text of the mode
pub record Mirror : Type 0 where
  pub name : Text
  pub state_path : Text
  pub poll_interval : ℤ
  pub idle_reset : ℤ
  pub uid_batch : ℤ
  pub seed : Text
  pub dest_guard : Bool
  pub carry_seen : Bool
  pub source : Endpoint
  pub dest : Endpoint
  pub archive : Archive
  pub sent : Sent
  pub labels : Labels

-- `Config`
pub record Config : Type 0 where
  pub health_addr : Text
  pub log_level : Text
  pub state_dir : Text
  pub lock_path : Text
  pub mirrors : List Mirror

-- What yaml.v3 tells of a bare node: no key, a null, or a value with its text, if it decodes to one.
pub data Node : Type 0 where
  absent null_node : Node
  value_node : Option Text → Node

-- `rawEndpoint`, `rawArchive`, `rawSent`, `rawLabels`, `rawMirror`, `rawConfig`: a missing scalar is
-- the zero value, a missing pointer is `none`
pub record RawEndpoint : Type 0 where
  pub host : Text
  pub port : ℤ
  pub user : Text
  pub password : Text
  pub password_file : Text
  pub folder : Text
  pub inbox : Text
  pub tls : Option Bool

pub record RawArchive : Type 0 where
  pub enabled : Bool
  pub folder : Text

pub record RawSent : Type 0 where
  pub enabled : Bool
  pub folder : Text
  pub source_folder : Text

pub record RawLabels : Type 0 where
  pub enabled : Bool
  pub propagate : Bool
  pub exclude : List Text
  pub keyword_prefix : Text
  pub keyword_replacement : Text

pub record RawMirror : Type 0 where
  pub name : Text
  pub state_path : Text
  pub poll_interval : ℤ
  pub idle_reset : ℤ
  pub uid_batch : ℤ
  pub seed : Text
  pub dest_guard : Option Bool
  pub carry_seen : Option Bool
  pub source : RawEndpoint
  pub dest : RawEndpoint
  pub archive : RawArchive
  pub sent : RawSent
  pub labels : RawLabels

pub record RawConfig : Type 0 where
  pub health_addr : Node
  pub log_level : Text
  pub state_dir : Text
  pub lock_path : Text
  pub mirrors : List RawMirror
