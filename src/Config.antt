-- ===== src/Config.antt =====
-- internal/config/config.go. The environment is a function: os.Getenv gives "" for a variable that is not set.
mod Examples
use anime_request_server.Prelude.{
  String, Bool, true, false, Option, none, some, ◌==◌, if◌then◌else◌,
}
use anime_request_server.Text.Numbers.{ℤ, pos, atoi, parse_bool}

pub record Config : Type 0 where
  pub database_url : String
  pub server_host : String
  pub server_port : ℤ
  pub session_secret : String
  pub webui_enabled : Bool
  pub real_ip_header : String
  pub cookie_secure : Bool
  pub log_request_ips : Bool

-- The error of Load, by the variable that it names.
pub data ConfigError : Type 0 where
  required : String → ConfigError
  invalid : String → ConfigError

pub data Loaded (A : Type 0) : Type 0 where
  loaded : A → Loaded A
  rejected : ConfigError → Loaded A

infixl 5 ◌>>=◌
abbrev pub ◌>>=◌ : {A B : Type 0} → Loaded A → (A → Loaded B) → Loaded B
loaded a >>= f = f a
rejected e >>= f = rejected e

abbrev pub or_invalid : {A : Type 0} → String → Option A → Loaded A
or_invalid name none = rejected (invalid name)
or_invalid name (some a) = loaded a

module _ (env : String → String) where
  -- A variable that is not set has its default; one that is set has to be read.
  abbrev pub setting : {A : Type 0} → String → (String → Option A) → A → Loaded A
  setting name read def = if env name == "" then loaded def else or_invalid name (read (env name))

  -- Load
  unfoldable pub load : Loaded Config
  unfolding atoi parse_bool
  load = if env "DATABASE_URL" == "" then rejected (required "DATABASE_URL") else do
    port ← setting "SERVER_PORT" atoi (pos 8080)
    webui ← setting "WEBUI_ENABLED" parse_bool true
    secure ← setting "COOKIE_SECURE" parse_bool true
    log ← setting "LOG_REQUEST_IPS" parse_bool false
    loaded (record {
      database_url = env "DATABASE_URL";
      server_host = if env "SERVER_HOST" == "" then "0.0.0.0" else env "SERVER_HOST";
      server_port = port;
      session_secret = env "SESSION_SECRET";
      webui_enabled = webui;
      real_ip_header = env "REAL_IP_HEADER";
      cookie_secure = secure;
      log_request_ips = log;
    })
