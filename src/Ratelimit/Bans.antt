-- ===== src/Ratelimit/Bans.antt =====
-- internal/ratelimit/login_limiter.go: when an address is banned, and for how long.
use anime_request_server.Prelude.{
  ℕ, suc, ◌+◌, ◌≤◌, ◌<◌, String, ◌≡◌, refl, true, false, Option, none, some, List, [], ◌∷◌, map,
  arith, eq_refl, ltb, leb, if◌then◌else◌, length, All, subst,
}
use anime_request_server.Ratelimit.{
  IpAttempts, LoginLimiter, fail_entry, record_failed_attempt, banned_entry, is_banned,
  notify_entry, mark_notified,
}
use anime_request_server.Ratelimit.Entries.{Event, failed, apply, run}

-- RecordFailedAttempt says "banned" exactly when IsBanned says so right afterwards.
pub record_failed_attempt-is_banned :
    (l : LoginLimiter) (now : ℕ) (ip : String)
    → 0 < l.ban_duration
    → (is_banned (record_failed_attempt l now ip).0 now ip).0 ≡ (record_failed_attempt l now ip).1
unfolding record_failed_attempt is_banned
record_failed_attempt-is_banned l now ip h = rw (eq_refl ip) (entry (l.attempts ip))
  where
    entry :
        (o : Option IpAttempts)
        → (banned_entry l now (some (fail_entry l now o).0)).0 ≡ (fail_entry l now o).1
    entry none = ground arith
    entry (some e) = ground arith

-- The attempt that brings about a ban, at an address that was not banned at that time, bans it for
-- exactly `ban_duration`; a further failure within the ban, or the notice, does not move its end.
pub ban_lasts :
    (l : LoginLimiter) (now at later : ℕ) (ip : String)
    → (is_banned l now ip).0 ≡ false
    → (record_failed_attempt l now ip).1 ≡ true
    → now ≤ at
    → at < now + l.ban_duration
    → let banned = (record_failed_attempt l now ip).0 in
      ((is_banned banned later ip).0 ≡ ltb later (now + l.ban_duration))
      × ((is_banned (record_failed_attempt banned at ip).0 later ip).0
          ≡ ltb later (now + l.ban_duration))
      × (is_banned (mark_notified banned ip) later ip
          ≡ (if ltb later (now + l.ban_duration) then (true, true) else (false, false)))
unfolding record_failed_attempt is_banned mark_notified
ban_lasts l now at later ip = rw (eq_refl ip) (entry (l.attempts ip))
  where
    entry :
        (o : Option IpAttempts)
        → (banned_entry l now o).0 ≡ false
        → (fail_entry l now o).1 ≡ true
        → now ≤ at
        → at < now + l.ban_duration
        → let e = (fail_entry l now o).0 in
          ((banned_entry l later (some e)).0 ≡ ltb later (now + l.ban_duration))
          × ((banned_entry l later (some (fail_entry l at (some e)).0)).0
              ≡ ltb later (now + l.ban_duration))
          × (banned_entry l later (notify_entry (some e))
              ≡ (if ltb later (now + l.ban_duration) then (true, true) else (false, false)))
    entry none n b p q = ground arith
    entry (some e) n b p q = ground arith

-- The attempts at one address at the given times.
abbrev pub failures : String → List ℕ → List (ℕ × Event)
failures ip = map λ t. (t, failed ip)

-- The entry after `k` failures since `start`, in the window.
abbrev Counted : LoginLimiter → ℕ → ℕ → Option IpAttempts → Type 0
Counted l start k none = ⊥
Counted l start k (some e) =
    (e.banned ≡ leb l.max_attempts k)
    × (e.banned ≡ false → (e.count ≡ k) × (e.first_try ≡ start))
    × (e.banned ≡ true → start ≤ e.banned_at)

abbrev InWindow : ℕ → ℕ → ℕ → Type 0
InWindow start w t = (start ≤ t) × (t ≤ start + w)

fail_entry-Counted :
    (l : LoginLimiter) (start k t : ℕ) (o : Option IpAttempts)
    → l.window < l.ban_duration
    → InWindow start l.window t
    → Counted l start k o
    → Counted l start (suc k) (some (fail_entry l t o).0)
unfolding fail_entry
fail_entry-Counted l start k t none h w c = absurd c
fail_entry-Counted l start k t (some e) h w c = ground arith

run-Counted :
    (l : LoginLimiter) (ip : String) (start k : ℕ) (ts : List ℕ)
    → l.window < l.ban_duration
    → All (InWindow start l.window) ts
    → Counted l start k (l.attempts ip)
    → Counted l start (k + length ts) ((run l (failures ip ts)).attempts ip)
unfolding run record_failed_attempt
run-Counted l ip start k [] h w c = subst (λ n. Counted l start n (l.attempts ip)) (omega arith) c
run-Counted l ip start k (t ∷ ts) h w c =
    let next = (record_failed_attempt l t ip).0 in
    subst (λ n. Counted l start n ((run next (failures ip ts)).attempts ip)) (omega arith)
      (run-Counted next ip start (suc k) ts h w.1
        (rw (eq_refl ip) (fail_entry-Counted l start k t (l.attempts ip) h w.0 c)))

run-duration : (l : LoginLimiter) (es : List (ℕ × Event)) → (run l es).ban_duration ≡ l.ban_duration
unfolding run
run-duration l [] = refl
run-duration l ((now, failed ip) ∷ es) = run-duration (apply l (now, failed ip)) es
run-duration l ((now, e) ∷ es) = run-duration (apply l (now, e)) es

-- From a state with no record of the address, where the limit is at least two and a ban outlasts
-- the window: after a failure at `start` and any more failures, all within the window, the address
-- is banned at a time of the window, `now`, if and only if the failures number at least `max_attempts`.
pub is_banned-failures :
    (l : LoginLimiter) (ip : String) (start now : ℕ) (ts : List ℕ)
    → l.attempts ip ≡ none
    → 2 ≤ l.max_attempts
    → l.window < l.ban_duration
    → All (InWindow start l.window) ts
    → InWindow start l.window now
    → (is_banned (run l (failures ip (start ∷ ts))) now ip).0 ≡ leb l.max_attempts (suc (length ts))
unfolding is_banned
is_banned-failures l ip start now ts free most h w n =
    let first = (record_failed_attempt l start ip).0 in
    entry (run l (failures ip (start ∷ ts))) _ (run-duration l (failures ip (start ∷ ts))) (
      unfold run in
      subst (λ n. Counted l start n ((run first (failures ip ts)).attempts ip)) (omega arith)
        (run-Counted first ip start 1 ts h w
          (unfold record_failed_attempt in rw (eq_refl ip, free) (ground arith))))
  where
    entry :
        (m : LoginLimiter) (o : Option IpAttempts)
        → m.ban_duration ≡ l.ban_duration
        → Counted l start (suc (length ts)) o
        → (banned_entry m now o).0 ≡ leb l.max_attempts (suc (length ts))
    entry m none e c = absurd c
    entry m (some e) d c = ground arith
