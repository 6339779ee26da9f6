-- ===== src/Repository/Statements/Examples.antt =====
-- The theorem on statements at a concrete run.
use anime_request_server.Prelude.{◌≡◌, refl, [], ◌∷◌}
use anime_request_server.Database.Tables.{Db, empty_db}
use anime_request_server.Database.Sound.{IsSound}
use anime_request_server.Server.Sample.{ada}
use anime_request_server.Repository.Statements.{
  Statement, create_user, create_destination, run, here, next, Reach-IsSound,
}

empty_db-IsSound : IsSound (λ s. s) empty_db
empty_db-IsSound = record {
  users = record { ids = tt; names = tt; roles = tt };
  sessions = record { ids = tt; hashes = tt; owners = tt };
  destinations = record { ids = tt; names = tt; creators = tt };
  invites = record { ids = tt; codes = tt; creators = tt; users = tt };
  requests = record { ids = tt; names = tt; alts = tt; checks = tt; requesters = tt };
  links = record { pairs = tt; requests = tt; destinations = tt };
  notes = record { ids = tt; requests = tt; authors = tt };
}

abbrev first_user : Statement
first_user = create_user ada

abbrev first_destination : Statement
first_destination =
    create_destination (record { id = 4; name = "alpha"; created_by = 1; created_at = 3 })

abbrev two_tables : Db
two_tables = run (λ s. s) 3 first_destination (run (λ s. s) 2 first_user empty_db)

-- Both are there.
two_tables_lem : two_tables ≡ record empty_db {
  users = ada ∷ [];
  server_destinations = record { id = 4; name = "alpha"; created_by = 1; created_at = 3 } ∷ [];
}
unfolding run anime_request_server.Database.Accounts.insert_user
    anime_request_server.Database.Accounts.insert_destination
two_tables_lem = refl

Reach-IsSound_example : IsSound (λ s. s) two_tables
Reach-IsSound_example =
    Reach-IsSound (λ s. s) empty_db-IsSound
      (next 3 first_destination (next 2 first_user here refl) refl)
