-- ===== src/Remote/Generic.antt =====
-- The other routes of serwebs/routes_api.py on the aggregator: its ports, its backends, the address of
-- a WebSocket, and the route that passes on any request, for an aggregator that is enabled.
use Prim.Native.String.{◌++◌ as append}
use text.Mathlib.TextLemmas.{append-nil as text_append_nil, append_assoc as text_append_assoc}
use serwebs.Prelude.{
  ℕ, ◌≡◌, ◌∙◌, ap, sym, String, true, false, refl, Option, none, some, List, [], ◌∷◌, if◌then◌else◌,
}
use serwebs.Text.{concat}
use serwebs.Dict.{Dict}
use serwebs.Roles.{User, require_role}
use serwebs.Audit.{Entry, no_details}
use serwebs.Backends.{BackendConfig, Aggregator, find_backend, reload_backends}
use serwebs.Remote.{RemotePort, Port, PortCache, fetch_all_ports, get_backend_ws_url}
use serwebs.Remote.Requests.{
  Method, post_method, put_method, Body, no_body, settings, alias_of, text_of, Request, Reply,
  proxy_request, RemoteCall, open_port, rename_port, write_port, close_port, port_path, remote_call,
  needed_role, RouteReply, refused, result_of, remote_route, header_of, request_for, answered,
}
use serwebs.Remote.Proxy.{proxy_value}

abbrev pub names_of : List BackendConfig → List String
names_of [] = []
names_of (b ∷ bs) = b.name ∷ names_of bs

abbrev pub shown_of : List BackendConfig → List (String × String)
shown_of [] = []
shown_of (b ∷ bs) = (b.name, b.url) ∷ shown_of bs

-- The ports of all backends, with the names of these.
unfoldable pub aggregator_ports :
    ℕ
    → (BackendConfig → Option (List RemotePort))
    → List BackendConfig
    → PortCache
    → ℕ
    → List Port × List String × PortCache
unfolding fetch_all_ports
aggregator_ports second answer bs cache now =
    let (ports, cache', asked) = fetch_all_ports second answer bs cache now in
    (ports, names_of bs, cache')

unfoldable pub aggregator_backends : List BackendConfig → List (String × String)
aggregator_backends bs = shown_of bs

abbrev reload_entry : User → Entry
reload_entry user = record {
  event = "aggregator_reload";
  user = user.username;
  port_id = "";
  details = no_details;
}

-- `none` is 403.
unfoldable pub aggregator_reload :
    Aggregator → User → Option (List String) × Aggregator × List Entry
unfolding reload_backends
aggregator_reload agg user =
    if require_role "admin" user
    then (
      some (names_of (reload_backends agg).backends),
      reload_backends agg,
      reload_entry user ∷ [],
    )
    else (none, agg, [])

-- `none` is 404.
unfoldable pub aggregator_ws_url :
    ℕ
    → (BackendConfig → Option String)
    → List BackendConfig
    → Dict (String × ℕ)
    → String
    → String
    → ℕ
    → Option String × Dict (String × ℕ)
unfolding get_backend_ws_url
aggregator_ws_url second login bs cache name port_id now =
    get_backend_ws_url second login bs cache name port_id now

-- The body is read for these two methods; one that is no JSON counts as none.
abbrev pub body_of : Method → Body → Body
body_of post_method body = body
body_of put_method body = body
body_of _ body = no_body

unfoldable pub aggregator_proxy :
    (Request → Reply) → List BackendConfig → String → String → Method → Body → User → RouteReply
unfolding proxy_request result_of
aggregator_proxy send bs name path method body user =
    if require_role "user" user
    then result_of
        (proxy_request send bs name (concat ("/" ∷ path ∷ [])) method (body_of method body))
    else refused 403

-- The path and the body that a call of a remote port comes to.
abbrev pub path_of : RemoteCall → String → String
path_of (open_port s) port_id = concat ("api/ports/" ∷ port_id ∷ "/open" ∷ [])
path_of close_port port_id = concat ("api/ports/" ∷ port_id ∷ "/close" ∷ [])
path_of (rename_port alias) port_id = concat ("api/ports/" ∷ port_id ∷ "/rename" ∷ [])
path_of (write_port text) port_id = concat ("api/ports/" ∷ port_id ∷ "/write" ∷ [])

abbrev pub sent_with : RemoteCall → Body
sent_with (open_port s) = settings s
sent_with close_port = no_body
sent_with (rename_port alias) = alias_of alias
sent_with (write_port text) = text_of text

slash_path :
    (port_id what : String)
    → concat ("/" ∷ concat ("api/ports/" ∷ port_id ∷ what ∷ []) ∷ []) ≡ port_path port_id what
unfolding concat
slash_path port_id what =
    ap (λ s. append "/" s) (text_append_nil (append "api/ports/" (append port_id (append what ""))))
    ∙ sym (text_append_assoc "/" "api/ports/" (append port_id (append what "")))

same_call :
    (send : Request → Reply) (bs : List BackendConfig) (name port_id : String) (call : RemoteCall)
    → proxy_request send bs name
        (concat ("/" ∷ path_of call port_id ∷ []))
        post_method
        (sent_with call)
      ≡ remote_call send bs name port_id call
unfolding remote_call
same_call send bs name port_id (open_port s) =
    ap (λ p. proxy_request send bs name p post_method (settings s)) (slash_path port_id "/open")
same_call send bs name port_id close_port =
    ap (λ p. proxy_request send bs name p post_method no_body) (slash_path port_id "/close")
same_call send bs name port_id (rename_port alias) =
    ap (λ p. proxy_request send bs name p post_method (alias_of alias))
      (slash_path port_id "/rename")
same_call send bs name port_id (write_port text) =
    ap (λ p. proxy_request send bs name p post_method (text_of text)) (slash_path port_id "/write")

abbrev pub request_of : BackendConfig → RemoteCall → String → Request
request_of b call port_id =
    request_for b (concat ("/" ∷ path_of call port_id ∷ [])) post_method (sent_with call)

call_sends :
    (send : Request → Reply) (bs : List BackendConfig) (name port_id : String) (call : RemoteCall)
    (b : BackendConfig)
    → find_backend name bs ≡ some b
    → let request = request_of b call port_id in
      proxy_request send bs name
        (concat ("/" ∷ path_of call port_id ∷ []))
        post_method
        (sent_with call)
      ≡ answered (send request) request
call_sends send bs name port_id call b f =
    proxy_value send bs name (concat ("/" ∷ path_of call port_id ∷ [])) post_method (sent_with call)
      b f

-- A user who is no administrator, but may write, is refused by the routes that open, close and rename
-- a port of a backend. Where the backend is in the list, the route that passes requests on still
-- sends, for this user, the request of such a call, a POST with its path, its body and the credentials
-- of the backend, and makes of its reply the same answer that an administrator gets from the first
-- route.
pub proxy_bypasses :
    (send : Request → Reply) (bs : List BackendConfig) (name port_id : String) (call : RemoteCall)
    (user boss : User) (b : BackendConfig)
    → find_backend name bs ≡ some b
    → needed_role call ≡ "admin"
    → require_role "user" user ≡ true
    → require_role "admin" user ≡ false
    → require_role "admin" boss ≡ true
    → (remote_route send bs name port_id call user ≡ refused 403)
      × ((request : Request) × (request.method ≡ post_method)
          × (request.url ≡ concat (b.url ∷ concat ("/" ∷ path_of call port_id ∷ []) ∷ []))
          × (request.body ≡ sent_with call)
          × (request.header ≡ header_of b)
          × (aggregator_proxy send bs name (path_of call port_id) post_method (sent_with call) user
              ≡ result_of (answered (send request) request))
          × (remote_route send bs name port_id call boss
              ≡ result_of (answered (send request) request)))
unfolding aggregator_proxy remote_route
proxy_bypasses send bs name port_id call user boss b f needs may not_admin admin =
    let sent = call_sends send bs name port_id call b f in
    (
      rw (needs, not_admin) refl,
      (
        request_of b call port_id,
        unfold request_for in refl,
        unfold request_for in refl,
        unfold request_for in refl,
        unfold request_for in refl,
        rw may (ap result_of sent),
        rw (needs, admin) (ap result_of (sym (same_call send bs name port_id call) ∙ sent)),
      ),
    )
