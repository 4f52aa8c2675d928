-- ===== src/Remote/Requests.antt =====
-- The requests that `Aggregator` (serwebs/aggregator.py) passes on to a backend, and the routes of
-- serwebs/routes_api.py on remote ports, for an aggregator that is enabled. What a backend replies
-- is an argument.

use serwebs.Prelude.{ℕ, String, Bool, true, false, ◌&&◌, none, some, List, [], ◌∷◌, if◌then◌else◌}
use serwebs.Text.{is_true, concat}
use serwebs.Roles.{User, require_role}
use serwebs.Audit.{Entry, remote_port}
use serwebs.Backends.{BackendConfig, find_backend}

pub data Header : Type 0 where
  no_header : Header
  bearer : String → Header
  basic : String → String → Header

pub data Method : Type 0 where
  get_method post_method put_method delete_method : Method
  other_method : String → Method

pub data Body : Type 0 where
  no_body : Body
  settings alias_of text_of proxied : String → Body

pub record Request : Type 0 where
  pub method : Method
  pub url : String
  pub header : Header
  pub body : Body
  pub verify_ssl : Bool

unfoldable pub header_of : BackendConfig → Header
header_of b =
    if is_true b.token
    then bearer b.token
    else if is_true b.username && is_true b.password
    then basic b.username b.password
    else no_header

abbrev pub is_supported : Method → Bool
is_supported (other_method m) = false
is_supported _ = true

-- A GET and a DELETE go without the body.
abbrev body_for : Method → Body → Body
body_for post_method body = body
body_for put_method body = body
body_for _ body = no_body

-- The JSON object that comes back: whether it has the key "error", its status code, its text.
pub record Reply : Type 0 where
  pub has_error : Bool
  pub status : ℕ
  pub text : String

pub data Proxied : Type 0 where
  unknown_backend unsupported : Proxied
  -- the reply of the backend, and the request that was sent
  answered : Reply → Request → Proxied

unfoldable pub request_for : BackendConfig → String → Method → Body → Request
unfolding header_of
request_for b path method body = record {
  method = method;
  url = concat (b.url ∷ path ∷ []);
  header = header_of b;
  body = body_for method body;
  verify_ssl = b.verify_ssl;
}

unfoldable pub proxy_request :
    (Request → Reply) → List BackendConfig → String → String → Method → Body → Proxied
unfolding request_for
proxy_request send backends name path method body = elim (find_backend name backends) [
  | none ↦ unknown_backend
  | some b ↦
      let request : Request = request_for b path method body in
      if is_supported method then answered (send request) request else unsupported
]

-- `remote_open_port`, `remote_close_port`, `remote_rename_port` and `remote_write_port`.
pub data RemoteCall : Type 0 where
  open_port rename_port write_port : String → RemoteCall
  close_port : RemoteCall

abbrev pub port_path : String → String → String
port_path port_id what = concat ("/api/ports/" ∷ port_id ∷ what ∷ [])

unfoldable pub remote_call :
    (Request → Reply) → List BackendConfig → String → String → RemoteCall → Proxied
unfolding proxy_request
remote_call send bs name port_id (open_port s) =
    proxy_request send bs name (port_path port_id "/open") post_method (settings s)
remote_call send bs name port_id close_port =
    proxy_request send bs name (port_path port_id "/close") post_method no_body
remote_call send bs name port_id (rename_port alias) =
    proxy_request send bs name (port_path port_id "/rename") post_method (alias_of alias)
remote_call send bs name port_id (write_port text) =
    proxy_request send bs name (port_path port_id "/write") post_method (text_of text)

-- The role that the route asks for.
abbrev pub needed_role : RemoteCall → String
needed_role (write_port text) = "user"
needed_role _ = "admin"

abbrev entry : String → String → String → User → Entry
entry event name port_id user = record {
  event = event;
  user = user.username;
  port_id = "";
  details = remote_port name port_id;
}

pub data RouteReply : Type 0 where
  refused : ℕ → RouteReply
  passed_on : Reply → RouteReply

-- `"error" in result`
unfoldable pub result_of : Proxied → RouteReply
result_of unknown_backend = refused 502
result_of unsupported = refused 502
result_of (answered reply request) = if reply.has_error then refused 502 else passed_on reply

unfoldable pub remote_route :
    (Request → Reply) → List BackendConfig → String → String → RemoteCall → User → RouteReply
unfolding remote_call result_of
remote_route send bs name port_id call user =
    if require_role (needed_role call) user
    then result_of (remote_call send bs name port_id call)
    else refused 403

-- The entries of the audit log for a reply: an open and a close are entered.
unfoldable pub remote_audit : RouteReply → RemoteCall → String → String → User → List Entry
remote_audit (refused n) call name port_id user = []
remote_audit (passed_on reply) (open_port s) name port_id user =
    entry "aggregator_port_open" name port_id user ∷ []
remote_audit (passed_on reply) close_port name port_id user =
    entry "aggregator_port_close" name port_id user ∷ []
remote_audit (passed_on reply) _ name port_id user = []
