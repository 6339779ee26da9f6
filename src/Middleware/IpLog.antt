-- ===== src/Middleware/IpLog.antt =====
-- internal/middleware/iplog.go: the attributes that LogRequestIPs logs of a request. Writing them is left out.
use Prim.Native.Char.{code}
use Prim.Native.String
use anime_request_server.Prelude.{String, List, [], ◌∷◌, ◌++◌, map, same_id, if◌then◌else◌}
use anime_request_server.Text.{Unicode, to_lower}
use anime_request_server.Ratelimit.ClientIp.{Request, get_client_ip}

-- What the middleware reads of a request beside its address and trusted header; `values` is Header.Values.
pub record LoggedRequest : Type 0 where
  pub method : String
  pub path : String
  pub request : Request
  pub values : String → List String

abbrev pub ip_headers : List String
ip_headers =
    "X-Forwarded-For" ∷ "X-Real-IP" ∷ "CF-Connecting-IP" ∷ "True-Client-IP" ∷ "X-Client-IP"
    ∷ "Forwarded" ∷ []

-- strings.ReplaceAll(s, "-", "_")
unfoldable underscored : String → String
underscored String.[] = ""
underscored (String.◌∷◌ c s) =
    let rest = underscored s in
    if same_id (code c) b'-' then String.◌++◌ "_" rest else String.◌∷◌ c rest

-- strings.Join(…, ", ")
unfoldable joined : List String → String
joined [] = ""
joined (s ∷ []) = s
joined (s ∷ t ∷ ss) = String.◌++◌ s (String.◌++◌ ", " (joined (t ∷ ss)))

-- headerKey
unfoldable pub header_key : Unicode → String → String
unfolding underscored to_lower
header_key u h = underscored (to_lower u h)

abbrev pub attribute : Unicode → LoggedRequest → String → String × String
unfolding header_key joined
attribute u r h = (header_key u h, joined (r.values h))

-- LogRequestIPs
unfoldable pub log_attributes : Unicode → String → LoggedRequest → List (String × String)
unfolding get_client_ip
log_attributes u real_ip_header r =
    (("method", r.method)
      ∷ ("path", r.path)
      ∷ ("remote_addr", r.request.remote_addr)
      ∷ ("real_ip", get_client_ip r.request real_ip_header)
      ∷ ("real_ip_header", real_ip_header)
      ∷ [])
    ++ map (attribute u r) ip_headers
