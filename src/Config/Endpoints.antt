-- ===== src/Config/Endpoints.antt =====
-- `resolveEndpoint`
use umleitung.Base.{true, not, ◌&&◌, Option, none, some, if◌then◌else◌}
use umleitung.Base.Text.{Text, codes, trim_space, ◌==◌, pos}
use umleitung.Config.{Endpoint, RawEndpoint}
use umleitung.Config.Defaults.{default_str, default_int, default_bool, is_port}

-- what `resolveEndpoint` complains of
pub data EndpointFault : Type 0 where
  no_host no_user bad_port two_passwords unread_password_file no_password : EndpointFault

abbrev pub endpoint_of : RawEndpoint → Endpoint
endpoint_of raw = record {
  host = raw.host;
  port = default_int raw.port (pos 993);
  user = raw.user;
  password = codes "";
  folder = default_str raw.folder (codes "INBOX");
  inbox = default_str raw.inbox (codes "INBOX");
  tls = default_bool raw.tls true;
}

abbrev pub with_file : Endpoint → Option Text → Endpoint × Option EndpointFault
with_file ep none = (ep, some unread_password_file)
with_file ep (some text) = (record ep { password = trim_space text }, none)

-- `read_file` is `os.ReadFile`
abbrev pub with_password :
    (Text → Option Text) → RawEndpoint → Endpoint → Endpoint × Option EndpointFault
with_password read_file raw ep =
    if not (raw.password == codes "") && not (raw.password_file == codes "")
    then (ep, some two_passwords)
    else if not (raw.password == codes "")
    then (record ep { password = raw.password }, none)
    else if not (raw.password_file == codes "")
    then with_file ep (read_file raw.password_file)
    else (ep, some no_password)

unfoldable pub resolve_endpoint :
    (Text → Option Text) → RawEndpoint → Endpoint × Option EndpointFault
resolve_endpoint read_file raw =
    let ep = endpoint_of raw in
    if ep.host == codes ""
    then (ep, some no_host)
    else if ep.user == codes ""
    then (ep, some no_user)
    else if not (is_port ep.port)
    then (ep, some bad_port)
    else with_password read_file raw ep
