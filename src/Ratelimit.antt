-- ===== src/Ratelimit.antt =====
-- internal/ratelimit/login_limiter.go: the login limiter. Times are nanoseconds on one clock, and a
-- comparison of a difference of times (now.Sub(t) < d) is written as one of sums (now < t + d), which
-- says the same of times in any order. The map is a partial function of the address.
pub mod Entries
pub mod Bans
pub mod Cleanup
pub mod ClientIp
mod Examples
use anime_request_server.Prelude.{
  ℕ, suc, ◌+◌, ◌*◌, String, Bool, true, false, not, ◌&&◌, Option, none, some, ltb, leb, ◌==◌,
  if◌then◌else◌,
}

pub record IpAttempts : Type 0 where
  pub count : ℕ
  pub first_try : ℕ
  pub banned : Bool
  pub banned_at : ℕ
  pub notified_of_ban : Bool

pub record LoginLimiter : Type 0 where
  pub attempts : String → Option IpAttempts
  pub max_attempts : ℕ
  pub window : ℕ
  pub ban_duration : ℕ

unfoldable pub new_login_limiter : ℕ → ℕ → ℕ → LoginLimiter
new_login_limiter max_attempts window ban_duration = record {
  attempts = λ ip. none;
  max_attempts = max_attempts;
  window = window;
  ban_duration = ban_duration;
}

-- A write to the map, and a delete from it.
abbrev pub store :
    (String → Option IpAttempts) → String → Option IpAttempts → String → Option IpAttempts
store m ip e other = if ip == other then e else m other

-- The entry that a first attempt makes. The fields that Go leaves out are zero.
abbrev pub first_attempt : ℕ → IpAttempts
first_attempt now = record {
  count = 1;
  first_try = now;
  banned = false;
  banned_at = 0;
  notified_of_ban = false;
}

-- RecordFailedAttempt on one entry: the new entry, and whether the address is banned.
unfoldable pub fail_entry : LoginLimiter → ℕ → Option IpAttempts → IpAttempts × Bool
fail_entry l now none = (first_attempt now, false)
fail_entry l now (some e) =
    if e.banned
    then (if ltb now (e.banned_at + l.ban_duration) then (e, true) else (
      record e { banned = false; notified_of_ban = false; count = 1; first_try = now },
      false,
    ))
    else if ltb (e.first_try + l.window) now
    then (record e { count = 1; first_try = now }, false)
    else if leb l.max_attempts (suc e.count)
    then (record e { count = suc e.count; banned = true; banned_at = now }, true)
    else (record e { count = suc e.count }, false)

unfoldable pub record_failed_attempt : LoginLimiter → ℕ → String → LoginLimiter × Bool
unfolding fail_entry
record_failed_attempt l now ip =
    let (e, now_banned) = fail_entry l now (l.attempts ip) in
    (record l { attempts = store l.attempts ip (some e) }, now_banned)

-- IsBanned on one entry.
unfoldable pub banned_entry : LoginLimiter → ℕ → Option IpAttempts → Bool × Bool
banned_entry l now none = (false, false)
banned_entry l now (some e) =
    if not e.banned
    then (false, false)
    else if leb (e.banned_at + l.ban_duration) now
    then (false, false)
    else (true, e.notified_of_ban)

unfoldable pub is_banned : LoginLimiter → ℕ → String → Bool × Bool
unfolding banned_entry
is_banned l now ip = banned_entry l now (l.attempts ip)

-- MarkNotified on one entry.
unfoldable pub notify_entry : Option IpAttempts → Option IpAttempts
notify_entry none = none
notify_entry (some e) = if e.banned then some (record e { notified_of_ban = true }) else some e

unfoldable pub mark_notified : LoginLimiter → String → LoginLimiter
unfolding notify_entry
mark_notified l ip = record l { attempts = store l.attempts ip (notify_entry (l.attempts ip)) }

unfoldable pub record_success : LoginLimiter → String → LoginLimiter
record_success l ip = record l { attempts = store l.attempts ip none }

-- The test of one round of `cleanup`: whether the entry is removed.
unfoldable pub is_stale : LoginLimiter → ℕ → IpAttempts → Bool
is_stale l now e =
    if not e.banned && ltb (e.first_try + l.window * 2) now
    then true
    else e.banned && ltb (e.banned_at + l.ban_duration * 2) now

unfoldable pub clean_entry : LoginLimiter → ℕ → Option IpAttempts → Option IpAttempts
unfolding is_stale
clean_entry l now none = none
clean_entry l now (some e) = if is_stale l now e then none else some e

-- One tick of `cleanup`, over the whole map.
unfoldable pub cleanup : LoginLimiter → ℕ → LoginLimiter
unfolding clean_entry
cleanup l now = record l { attempts = λ ip. clean_entry l now (l.attempts ip) }
