-- ===== src/Remote/Proxy.antt =====
-- The requests that the routes pass on.
use serwebs.Prelude.{◌≡◌, String, some, List, [], ◌∷◌, if◌then◌else◌}
use serwebs.Text.{concat}
use serwebs.Backends.{BackendConfig, find_backend}
use serwebs.Remote.Requests.{
  Method, Body, request_for, is_supported, Request, Reply, answered, unsupported, header_of,
  proxy_request,
}

module _ (send : Request → Reply) (backends : List BackendConfig) (name : String) where
  -- The request goes to this backend, with its credentials and its check of certificates.
  abbrev pub IsSentTo : BackendConfig → Reply → Request → Type 0
  IsSentTo b reply request =
      (find_backend name backends ≡ some b)
      × (reply ≡ send request)
      × ((path : String) × (request.url ≡ concat (b.url ∷ path ∷ [])))
      × (request.header ≡ header_of b)
      × (request.verify_ssl ≡ b.verify_ssl)

  pub proxy_value :
      (path : String) (method : Method) (body : Body) (b : BackendConfig)
      → find_backend name backends ≡ some b
      → proxy_request send backends name path method body ≡ (
          if is_supported method
          then answered (send (request_for b path method body)) (request_for b path method body)
          else unsupported)
  unfolding proxy_request request_for
  proxy_value path method body b f = rw (f, proxy_request)
