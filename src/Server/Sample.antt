-- ===== src/Server/Sample.antt =====
-- A concrete system and a concrete state, for the theorems at concrete inputs.
use Prim.Native.Char.{code}
use anime_request_server.Prelude.{
  ℕ, true, false, none, some, List, [], ◌∷◌, same_id, leb, ◌==◌, if◌then◌else◌,
}
use anime_request_server.Text.{Unicode, to_lower}
use anime_request_server.Models.{User}
use anime_request_server.Database.Tables.{Db, RequestRow}
use anime_request_server.Server.{System, World}

-- A script without letter case.
abbrev caseless : Unicode
caseless = record {
  upper_char = λ c. c;
  lower_char = λ c. c;
  fold_char = λ c d. same_id (code c) (code d);
}

-- Twenty bytes.
abbrev zeros : List ℕ
zeros = 0 ∷ 0 ∷ 0 ∷ 0 ∷ 0 ∷ 0 ∷ 0 ∷ 0 ∷ 0 ∷ 0 ∷ 0 ∷ 0 ∷ 0 ∷ 0 ∷ 0 ∷ 0 ∷ 0 ∷ 0 ∷ 0 ∷ 0 ∷ []

abbrev pub sample_system : System
sample_system = record {
  unicode = caseless;
  sql_lower = λ s. to_lower caseless s;
  parse_uuid = λ s. if s == "id-1" then some 1 else if s == "id-2" then some 2 else none;
  parse_request_uri = λ s. if s == "http://a" then some ("http", "a") else none;
  check_password = λ hash password. hash == password;
  hash_password = λ salt password. some password;
  hash_token = λ token. token;
  decode_base32 = λ s. if s == "" then none else some (1 ∷ []);
  hmac_sha1 = λ key message. zeros;
}

abbrev pub ada : User
ada = record {
  id = 1;
  username = "ada";
  email = none;
  password_hash = "pw";
  totp_secret = none;
  totp_enabled = false;
  role = "admin";
  can_batch_add = true;
  disabled = false;
  notes_blocked = false;
  created_at = 0;
  updated_at = 0;
}

abbrev pub bob : User
bob = record ada { id = 2; username = "bob"; role = "user" }

abbrev pub frieren : RequestRow
frieren = record {
  id = 1;
  name = "frieren";
  alt_name = some "beyond";
  category = "current_future";
  status = "new";
  requested_by = 2;
  anidb_url = none;
  created_at = 3;
  updated_at = 3;
}

abbrev pub sample_db : Db
sample_db = record {
  users = ada ∷ bob ∷ [];
  sessions = [];
  server_destinations =
      record { id = 1; name = "alpha"; created_by = 1; created_at = 0 }
      ∷ record { id = 2; name = "beta"; created_by = 1; created_at = 0 }
      ∷ [];
  requests = frieren ∷ [];
  links =
      record { request_id = 1; server_destination_id = 2; added_at = 5 }
      ∷ record { request_id = 1; server_destination_id = 1; added_at = 4 }
      ∷ [];
  notes = [];
  invite_codes = [];
  ties = λ statement a b. leb b a;
}

abbrev pub sample_world : World
sample_world = record {
  db = sample_db;
  limiter = record { attempts = λ ip. none; max_attempts = 2; window = 10; ban_duration = 30 };
  now = 100;
  faults = [];
}
