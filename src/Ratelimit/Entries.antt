-- ===== src/Ratelimit/Entries.antt =====
-- internal/ratelimit/login_limiter.go: sequences of calls, and the well-formedness of the limiter's entries.
use anime_request_server.Prelude.{
  ℕ, ◌≤◌, ◌<◌, String, ◌≡◌, Bool, true, false, Option, none, some, List, [], ◌∷◌, ◌++◌, arith,
}
use anime_request_server.Ratelimit.{
  IpAttempts, LoginLimiter, store, fail_entry, record_failed_attempt, is_banned, notify_entry,
  mark_notified, record_success, clean_entry, cleanup,
}

-- An entry that is not banned has fewer attempts than the limit and no notice; a banned one has
-- reached the limit.
abbrev pub IsSound : ℕ → Option IpAttempts → Type 0
IsSound most none = Unit {0}
IsSound most (some e) =
    (1 ≤ e.count)
    × (e.banned ≡ false → (e.count < most) × (e.notified_of_ban ≡ false))
    × (e.banned ≡ true → most ≤ e.count)

pub record IsValid (l : LoginLimiter) : Type 0 where
  pub limit : 2 ≤ l.max_attempts
  pub sound : (ip : String) → IsSound l.max_attempts (l.attempts ip)

fail_entry-IsSound :
    (l : LoginLimiter) (now : ℕ) (o : Option IpAttempts)
    → 2 ≤ l.max_attempts
    → IsSound l.max_attempts o
    → IsSound l.max_attempts (some (fail_entry l now o).0)
unfolding fail_entry
fail_entry-IsSound l now none h s = ground arith
fail_entry-IsSound l now (some e) h s = ground arith

notify_entry-IsSound : (n : ℕ) (o : Option IpAttempts) → IsSound n o → IsSound n (notify_entry o)
unfolding notify_entry
notify_entry-IsSound n none s = s
notify_entry-IsSound n (some e) s = ground arith

clean_entry-IsSound :
    (l : LoginLimiter) (now n : ℕ) (o : Option IpAttempts)
    → IsSound n o
    → IsSound n (clean_entry l now o)
unfolding clean_entry
clean_entry-IsSound l now n none s = s
clean_entry-IsSound l now n (some e) s = ground arith

store-IsSound :
    (n : ℕ) (m : String → Option IpAttempts) (ip : String) (e : Option IpAttempts)
    → ((other : String) → IsSound n (m other))
    → IsSound n e
    → (other : String) → IsSound n (store m ip e other)
store-IsSound n m ip e h s other = ground (arith, h other)

-- Every call of the limiter's interface, as an event at a time.
pub data Event : Type 0 where
  failed success notified asked : String → Event
  cleaned : Event

unfoldable pub apply : LoginLimiter → ℕ × Event → LoginLimiter
unfolding record_failed_attempt record_success mark_notified cleanup
apply l (now, failed ip) = (record_failed_attempt l now ip).0
apply l (now, success ip) = record_success l ip
apply l (now, notified ip) = mark_notified l ip
apply l (now, asked ip) = l
apply l (now, cleaned) = cleanup l now

-- Every operation of the limiter keeps its entries well formed: an entry that is not banned is
-- below the limit and carries no notice, one that is banned has reached it.
pub apply-IsValid : (l : LoginLimiter) (at : ℕ × Event) → IsValid l → IsValid (apply l at)
unfolding apply
apply-IsValid l (now, failed ip) v = record {
  limit = v.limit;
  sound =
      store-IsSound l.max_attempts l.attempts ip _ v.sound
        (fail_entry-IsSound l now (l.attempts ip) v.limit (v.sound ip));
}
apply-IsValid l (now, success ip) v = record {
  limit = v.limit;
  sound = store-IsSound l.max_attempts l.attempts ip none v.sound tt;
}
apply-IsValid l (now, notified ip) v = record {
  limit = v.limit;
  sound =
      store-IsSound l.max_attempts l.attempts ip _ v.sound
        (notify_entry-IsSound l.max_attempts (l.attempts ip) (v.sound ip));
}
apply-IsValid l (now, asked ip) v = v
apply-IsValid l (now, cleaned) v = record {
  limit = v.limit;
  sound = λ ip. clean_entry-IsSound l now l.max_attempts (l.attempts ip) (v.sound ip);
}

unfoldable pub run : LoginLimiter → List (ℕ × Event) → LoginLimiter
unfolding apply
run l [] = l
run l (e ∷ es) = run (apply l e) es

-- What a caller is told: whether the address is banned after a failure, and the two answers of
-- IsBanned. The other calls return nothing.
unfoldable pub answer : LoginLimiter → ℕ × Event → List (Bool × Bool)
unfolding record_failed_attempt is_banned
answer l (now, failed ip) = ((record_failed_attempt l now ip).1, false) ∷ []
answer l (now, asked ip) = is_banned l now ip ∷ []
answer l (now, _) = []

unfoldable pub answers : LoginLimiter → List (ℕ × Event) → List (Bool × Bool)
unfolding answer apply
answers l [] = []
answers l (e ∷ es) = answer l e ++ answers (apply l e) es
