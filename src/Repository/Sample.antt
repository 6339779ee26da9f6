-- ===== src/Repository/Sample.antt =====
-- The tables of Server.Sample are sound, for the theorems at concrete inputs.
use anime_request_server.Prelude.{refl}
use anime_request_server.Text.{to_lower}
use anime_request_server.Database.Sound.{IsSound}
use anime_request_server.Repository.Requests.Names.{Names}
use anime_request_server.Server.Sample.{sample_system, sample_db}

pub sample_db-IsSound : IsSound sample_system.sql_lower sample_db
unfolding to_lower
sample_db-IsSound = record {
  users = record {
    ids = (refl, (refl, tt));
    names = (refl, (refl, tt));
    roles = (refl, (refl, tt));
  };
  sessions = record { ids = tt; hashes = tt; owners = tt };
  destinations = record {
    ids = (refl, (refl, tt));
    names = (refl, (refl, tt));
    creators = (refl, (refl, tt));
  };
  invites = record { ids = tt; codes = tt; creators = tt; users = tt };
  requests = record {
    ids = (refl, tt);
    names = (refl, tt);
    alts = (refl, tt);
    checks = (refl, tt);
    requesters = (refl, tt);
  };
  links = record {
    pairs = (refl, (refl, tt));
    requests = (refl, (refl, tt));
    destinations = (refl, (refl, tt));
  };
  notes = record { ids = tt; requests = tt; authors = tt };
}

pub sample-Names : Names sample_system sample_db
unfolding to_lower
sample-Names = record {
  ids = (refl, tt);
  real = (refl, tt);
  names = (refl, tt);
  alts = (refl, tt);
  differ = (refl, tt);
  cross = (refl, tt);
}
