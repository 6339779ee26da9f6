-- ===== src/Ratelimit/Examples.antt =====
-- Tests of the login limiter and its theorems at concrete inputs.
use anime_request_server.Prelude.{ℕ, ◌≡◌, refl, true, false, none, some, List, [], ◌∷◌, arith}
use anime_request_server.Ratelimit.{
  LoginLimiter, new_login_limiter, record_failed_attempt, is_banned, mark_notified,
}
use anime_request_server.Ratelimit.Entries.{
  IsValid, Event, failed, notified, asked, cleaned, apply, apply-IsValid, run, answers,
}
use anime_request_server.Ratelimit.Bans.{failures, ban_lasts, is_banned-failures}
use anime_request_server.Ratelimit.Cleanup.{without_cleanups, answers-cleanup}
use anime_request_server.Ratelimit.ClientIp.{
  Request, get_client_ip, get_client_ip-trusted, split_host,
}

-- 3 attempts, window 10, ban 30.
abbrev fresh : LoginLimiter
fresh = record { attempts = λ ip. none; max_attempts = 3; window = 10; ban_duration = 30 }

abbrev thrice : List (ℕ × Event)
thrice = failures "1.2.3.4" (0 ∷ 4 ∷ 9 ∷ [])

fresh_lem : fresh ≡ new_login_limiter 3 10 30
unfolding new_login_limiter
fresh_lem = refl

third_bans : answers fresh thrice ≡ (false, false) ∷ (false, false) ∷ (true, false) ∷ []
unfolding answers
third_bans = refl

teapot :
    answers fresh (
      (0, failed "a")
      ∷ (1, failed "a")
      ∷ (2, failed "a")
      ∷ (3, asked "a")
      ∷ (3, notified "a")
      ∷ (31, asked "a")
      ∷ (32, asked "a")
      ∷ [])
    ≡ (false, false)
      ∷ (false, false)
      ∷ (true, false)
      ∷ (true, false)
      ∷ (true, true)
      ∷ (false, false)
      ∷ []
unfolding answers
teapot = refl

fresh-IsValid : IsValid fresh
fresh-IsValid = record { limit = omega arith; sound = λ ip. tt }

apply-IsValid_example : IsValid (apply fresh (0, failed "a"))
apply-IsValid_example = apply-IsValid fresh (0, failed "a") fresh-IsValid

abbrev twice : LoginLimiter
twice = record fresh {
  attempts = λ ip.
      some (record {
        count = 2;
        first_try = 0;
        banned = false;
        banned_at = 0;
        notified_of_ban = false;
      });
}

ban_lasts_example :
    ((is_banned (record_failed_attempt twice 9 "a").0 38 "a").0 ≡ true)
    × ((is_banned (record_failed_attempt (record_failed_attempt twice 9 "a").0 20 "a").0 38 "a").0
        ≡ true)
    × (is_banned (mark_notified (record_failed_attempt twice 9 "a").0 "a") 38 "a" ≡ (true, true))
unfolding is_banned record_failed_attempt
ban_lasts_example = ban_lasts twice 9 20 38 "a" refl refl (omega arith) (omega arith)

is_banned-failures_example : (is_banned (run fresh (failures "a" (0 ∷ 4 ∷ 9 ∷ []))) 10 "a").0 ≡ true
is_banned-failures_example =
    is_banned-failures fresh "a" 0 10 (4 ∷ 9 ∷ []) refl (omega arith) (omega arith) (omega arith)
      (omega arith)

abbrev swept : List (ℕ × Event)
swept = (0, failed "a") ∷ (1, failed "a") ∷ (30, cleaned) ∷ (31, failed "a") ∷ (31, asked "a") ∷ []

answers-cleanup_example : answers fresh swept ≡ answers fresh (without_cleanups swept)
answers-cleanup_example = answers-cleanup fresh 0 swept fresh-IsValid (omega arith)

abbrev proxied : Request
proxied = record { header = λ name. "203.0.113.7, 10.0.0.1"; remote_addr = "[::1]:4711" }

abbrev direct : Request
direct = record { header = λ name. ""; remote_addr = "[::1]:4711" }

client_ips :
    (get_client_ip proxied "X-Forwarded-For" ≡ "203.0.113.7")
    × (get_client_ip proxied "" ≡ "::1")
    × (get_client_ip direct "X-Forwarded-For" ≡ "::1")
    × (split_host "10.0.0.1:80" ≡ some "10.0.0.1")
    × (split_host "::1:80" ≡ none)
unfolding get_client_ip
client_ips = (refl, refl, refl, refl, refl)

get_client_ip-trusted_example : get_client_ip proxied "" ≡ get_client_ip direct ""
get_client_ip-trusted_example = get_client_ip-trusted proxied direct "" refl (λ h. absurd (h refl))
