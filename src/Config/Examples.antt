-- ===== src/Config/Examples.antt =====
-- Tests of the configuration.
use anime_request_server.Prelude.{String, ◌≡◌, refl, true, false, ◌==◌, if◌then◌else◌}
use anime_request_server.Text.Numbers.{pos}
use anime_request_server.Config.{load, loaded, rejected, required, invalid}

-- One variable beside DATABASE_URL.
abbrev env_with : String → String → String → String
env_with name value v =
    if v == "DATABASE_URL" then "postgres://db" else if v == name then value else ""

defaults :
    load (env_with "" "")
    ≡ loaded (record {
      database_url = "postgres://db";
      server_host = "0.0.0.0";
      server_port = pos 8080;
      session_secret = "";
      webui_enabled = true;
      real_ip_header = "";
      cookie_secure = true;
      log_request_ips = false;
    })
unfolding load
defaults = refl

no_database : load (λ v. "") ≡ rejected (required "DATABASE_URL")
unfolding load
no_database = refl

bad_port : load (env_with "SERVER_PORT" "80x") ≡ rejected (invalid "SERVER_PORT")
unfolding load
bad_port = refl

insecure :
    load (env_with "COOKIE_SECURE" "F")
    ≡ loaded (record {
      database_url = "postgres://db";
      server_host = "0.0.0.0";
      server_port = pos 8080;
      session_secret = "";
      webui_enabled = true;
      real_ip_header = "";
      cookie_secure = false;
      log_request_ips = false;
    })
unfolding load
insecure = refl
