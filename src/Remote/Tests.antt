-- ===== src/Remote/Tests.antt =====
-- The aggregator's requests on a small list of backends.
use serwebs.Prelude.{◌≡◌, refl, String, true, false, Option, none, some, [], ◌∷◌}
use serwebs.Roles.{User, require_role, level}
use serwebs.Backends.{BackendConfig, find_backend}
use serwebs.Text.{concat}
use serwebs.Remote.Generic.{path_of, sent_with, aggregator_proxy, proxy_bypasses}
use serwebs.Remote.Requests.{
  refused, header_of, result_of, answered, post_method, Request, Reply, open_port, remote_route,
}

abbrev ann : User
ann = record { username = "ann"; role = "admin" }

abbrev lab : BackendConfig
lab = record {
  name = "lab";
  url = "https://lab";
  token = "";
  username = "u";
  password = "p";
  verify_ssl = true;
}

abbrev moved : BackendConfig
moved = record lab { url = "http://elsewhere" }

abbrev silent_login : BackendConfig → Option String
silent_login b = none

abbrev gives : BackendConfig → Option String
gives b = some "jwt"

abbrev echo : Request → Reply
echo request = record { has_error = false; status = 401; text = request.url }

abbrev reply : Reply
reply = record { has_error = false; status = 401; text = "https://lab/api/ports/usb0/open" }

abbrev operator : User
operator = record { username = "bob"; role = "user" }

-- A user opens a port that only an administrator may open.
proxy_bypasses_example :
    (remote_route echo (lab ∷ []) "lab" "usb0" (open_port "9600") operator ≡ refused 403)
    × ((request : Request) × (request.method ≡ post_method)
        × (request.url
            ≡ concat (lab.url ∷ concat ("/" ∷ path_of (open_port "9600") "usb0" ∷ []) ∷ []))
        × (request.body ≡ sent_with (open_port "9600"))
        × (request.header ≡ header_of lab)
        × (aggregator_proxy echo
              (lab ∷ [])
              "lab"
              (path_of (open_port "9600") "usb0")
              post_method
              (sent_with (open_port "9600"))
              operator
            ≡ result_of (answered (echo request) request))
        × (remote_route echo (lab ∷ []) "lab" "usb0" (open_port "9600") ann
            ≡ result_of (answered (echo request) request)))
unfolding require_role level find_backend
proxy_bypasses_example =
    proxy_bypasses echo (lab ∷ []) "lab" "usb0" (open_port "9600") operator ann lab refl refl refl
      refl refl
