-- ===== src/Command.antt =====
-- cmd/zima-vm-extras/main.go, internal/config/config.go: what a request passes before it is routed, and
-- the configuration.
use zvm_extra.Base.{
  Bool, true, false, not, Option, none, some, [], ◌∷◌, ◌++◌, ◌||◌, ◌&&◌, if◌then◌else◌, length,
  drop,
}
use zvm_extra.Bytes.{Bytes, codes, bytes_eq, has_prefix, has_suffix, contains}
use zvm_extra.Paths.{is_abs, clean}

pub record Config : Type 0 where
  pub bind_addr : Bytes
  pub port : Bytes
  pub data_dir : Bytes
  pub static_dir : Bytes
  pub virsh_bin : Bytes
  pub route_path : Bytes
  pub gateway_url_file : Bytes

-- `getenv` gives the empty text where a variable is not set.
unfoldable pub env : (Bytes → Bytes) → Bytes → Bytes → Bytes
env getenv k def = if bytes_eq (getenv k) [] then def else getenv k

unfoldable pub load : (Bytes → Bytes) → Config
load getenv = record {
  bind_addr = env getenv (codes "BIND_ADDR") (codes "127.0.0.1");
  port = env getenv (codes "PORT") (codes "8473");
  data_dir = env getenv (codes "DATA_DIR") (codes "/DATA/AppData/zima-vm-extras");
  static_dir =
      env getenv (codes "STATIC_DIR") (codes "/usr/share/casaos/www/modules/zima_vm_extras");
  virsh_bin = env getenv (codes "VIRSH_BIN") (codes "/usr/bin/virsh");
  route_path = env getenv (codes "ROUTE_PATH") (codes "/v2/vm_extras");
  gateway_url_file = env getenv (codes "GATEWAY_URL_FILE") (codes "/var/run/casaos/management.url");
}

-- A request as it comes in: `origin` is empty where the header is missing.
pub record Request : Type 0 where
  pub method : Bytes
  pub host : Bytes
  pub origin : Bytes
  pub path : Bytes

unfoldable pub changes_state : Bytes → Bool
changes_state m =
    bytes_eq m (codes "POST") || (bytes_eq m (codes "PUT") || bytes_eq m (codes "DELETE"))

-- `url_host` is what url.Parse gives for the host of an address, `none` where it fails.
unfoldable pub is_foreign : (Bytes → Option Bytes) → Request → Bool
is_foreign url_host r =
    if bytes_eq r.origin []
    then false
    else elim (url_host r.origin) [ none ↦ true | some h ↦ not (bytes_eq h r.host) ]

-- The path without the prefix of the gateway's route.
unfoldable pub strip_route : Bytes → Bytes → Bytes
strip_route route path =
    if bytes_eq route []
    then path
    else if bytes_eq path route
    then codes "/"
    else if has_prefix path (route ++ codes "/")
    then drop (length route) path
    else path

-- What becomes of a request: it is rejected, answered by the handlers or by the files of the page, or the client is
-- sent to another path.
pub data Outcome : Type 0 where
  rejected : Outcome
  redirected : Bytes → Outcome
  api : Bytes → Outcome
  file : Bytes → Outcome

-- The path that http.ServeMux sends a client to where it differs from the path of the request.
unfoldable pub mux_path : Bytes → Bytes
mux_path p =
    let rooted = if is_abs p then p else b'/' ∷ p in
    if has_suffix rooted (codes "/") && not (bytes_eq (clean rooted) (codes "/"))
    then clean rooted ++ codes "/"
    else clean rooted

unfoldable pub serve_mux : Bytes → Outcome
serve_mux path =
    if not (bytes_eq (mux_path path) path)
    then redirected (mux_path path)
    else if has_prefix path (codes "/api/")
    then api path
    else if contains path (codes "..")
    then rejected
    else file path

unfoldable pub root : (Bytes → Option Bytes) → Config → Request → Outcome
root url_host cfg r =
    if changes_state r.method && is_foreign url_host r
    then rejected
    else serve_mux (strip_route cfg.route_path r.path)
