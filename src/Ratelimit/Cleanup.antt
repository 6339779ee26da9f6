-- ===== src/Ratelimit/Cleanup.antt =====
-- internal/ratelimit/login_limiter.go: the periodic cleanup beside the other calls.
use anime_request_server.Prelude.{
  ℕ, ◌+◌, ◌≤◌, ◌<◌, String, ◌≡◌, refl, ap, ap₂, ◌≢◌, ◌⊎◌, inl, inr, Bool, true, false, Option, none,
  some, List, [], ◌∷◌, ◌++◌, arith, ◌==◌, Bool-cases,
}
use anime_request_server.Ratelimit.{
  IpAttempts, LoginLimiter, store, fail_entry, banned_entry, notify_entry, clean_entry, cleanup,
}
use anime_request_server.Ratelimit.Entries.{
  IsSound, IsValid, Event, failed, success, notified, asked, cleaned, apply, apply-IsValid, answer,
  answers,
}

-- Neither a ban nor a window of the entry is running, so it reads like no entry.
abbrev IsOver : LoginLimiter → ℕ → Option IpAttempts → Type 0
IsOver l now none = Unit {0}
IsOver l now (some e) =
    (e.banned ≡ false → (e.first_try + l.window < now) × (e.notified_of_ban ≡ false))
    × (e.banned ≡ true → e.banned_at + l.ban_duration ≤ now)

-- The entries agree in all but the end of a ban that is over.
abbrev Agree : Option IpAttempts → Option IpAttempts → Type 0
Agree none none = Unit {0}
Agree none (some f) = ⊥
Agree (some e) none = ⊥
Agree (some e) (some f) =
    (e.count ≡ f.count)
    × (e.first_try ≡ f.first_try)
    × (e.banned ≡ f.banned)
    × (e.notified_of_ban ≡ f.notified_of_ban)
    × (e.banned ≡ true → e.banned_at ≡ f.banned_at)

abbrev Alike : LoginLimiter → ℕ → Option IpAttempts → Option IpAttempts → Type 0
Alike l now a b = (IsOver l now a × IsOver l now b) ⊎ Agree a b

module _ (l : LoginLimiter) (now t : ℕ) (later : now ≤ t) where
  fail_entry-Alike :
      (a b : Option IpAttempts)
      → Alike l now a b
      → Alike l t (some (fail_entry l t a).0) (some (fail_entry l t b).0)
        × ((fail_entry l t a).1 ≡ (fail_entry l t b).1)
  unfolding fail_entry
  fail_entry-Alike none none h = ground arith
  fail_entry-Alike none (some f) h = ground arith
  fail_entry-Alike (some e) none h = ground arith
  fail_entry-Alike (some e) (some f) h = ground arith

  banned_entry-Alike :
      (a b : Option IpAttempts) → Alike l now a b → banned_entry l t a ≡ banned_entry l t b
  unfolding banned_entry
  banned_entry-Alike none none h = ground arith
  banned_entry-Alike none (some f) h = ground arith
  banned_entry-Alike (some e) none h = ground arith
  banned_entry-Alike (some e) (some f) h = ground arith

  notify_entry-Alike :
      (a b : Option IpAttempts) → Alike l now a b → Alike l t (notify_entry a) (notify_entry b)
  unfolding notify_entry
  notify_entry-Alike none none h = ground arith
  notify_entry-Alike none (some f) h = ground arith
  notify_entry-Alike (some e) none h = ground arith
  notify_entry-Alike (some e) (some f) h = ground arith

  clean_entry-Alike :
      (a b : Option IpAttempts)
      → IsSound l.max_attempts a
      → Alike l now a b
      → Alike l t (clean_entry l t a) b
  unfolding clean_entry
  clean_entry-Alike none none s h = ground arith
  clean_entry-Alike none (some f) s h = ground arith
  clean_entry-Alike (some e) none s h = ground arith
  clean_entry-Alike (some e) (some f) s h = ground arith

-- Two limiters of one configuration whose entries read alike from `now` on.
record Twins (now : ℕ) (l m : LoginLimiter) : Type 0 where
  limit : l.max_attempts ≡ m.max_attempts
  window : l.window ≡ m.window
  ban : l.ban_duration ≡ m.ban_duration
  alike : (ip : String) → Alike l now (l.attempts ip) (m.attempts ip)

store-Alike :
    (l : LoginLimiter) (t : ℕ) (p q : String → Option IpAttempts) (ip : String)
    (a b : Option IpAttempts)
    → Alike l t a b
    → ((other : String) → Alike l t (p other) (q other))
    → (other : String) → Alike l t (store p ip a other) (store q ip b other)
store-Alike l t p q ip a b h k other = elim (Bool-cases (ip == other)) [
  | inl e ↦ rw e h
  | inr e ↦ rw e (k other)
]

-- The answers depend on the configuration and the entry alone.
fail_entry-config :
    (l m : LoginLimiter) (t : ℕ) (o : Option IpAttempts)
    → l.max_attempts ≡ m.max_attempts
    → l.window ≡ m.window
    → l.ban_duration ≡ m.ban_duration
    → fail_entry l t o ≡ fail_entry m t o
unfolding fail_entry
fail_entry-config l m t none p q r = refl
fail_entry-config l m t (some e) p q r = rw (p, q, r)

banned_entry-config :
    (l m : LoginLimiter) (t : ℕ) (o : Option IpAttempts)
    → l.ban_duration ≡ m.ban_duration
    → banned_entry l t o ≡ banned_entry m t o
unfolding banned_entry
banned_entry-config l m t none r = refl
banned_entry-config l m t (some e) r = rw r

-- Time passes.
Alike-later :
    (l : LoginLimiter) (now t : ℕ) (a b : Option IpAttempts)
    → now ≤ t
    → Alike l now a b
    → Alike l t a b
Alike-later l now t none none p h = ground arith
Alike-later l now t none (some f) p h = ground arith
Alike-later l now t (some e) none p h = ground arith
Alike-later l now t (some e) (some f) p h = ground arith

-- The times of the events do not fall.
abbrev pub Ordered : ℕ → List (ℕ × Event) → Type 0
Ordered now [] = Unit {0}
Ordered now ((t, e) ∷ es) = (now ≤ t) × Ordered t es

-- The events without the cleanups.
unfoldable pub without_cleanups : List (ℕ × Event) → List (ℕ × Event)
without_cleanups [] = []
without_cleanups ((t, cleaned) ∷ es) = without_cleanups es
without_cleanups ((t, e) ∷ es) = (t, e) ∷ without_cleanups es

module _ (l m : LoginLimiter) (now t : ℕ) (later : now ≤ t) (w : Twins now l m) where
  stored-Twins :
      (ip : String) (a b : Option IpAttempts)
      → Alike l t a b
      → Twins t
          (record l { attempts = store l.attempts ip a })
          (record m { attempts = store m.attempts ip b })
  stored-Twins ip a b h = record {
    limit = w.limit;
    window = w.window;
    ban = w.ban;
    alike =
        store-Alike l t l.attempts m.attempts ip a b h
          (λ other. Alike-later l now t _ _ later (w.alike other));
  }

  failed-Alike :
      (ip : String)
      → Alike l t
          (some (fail_entry l t (l.attempts ip)).0)
          (some (fail_entry m t (m.attempts ip)).0)
        × ((fail_entry l t (l.attempts ip)).1 ≡ (fail_entry m t (m.attempts ip)).1)
  failed-Alike ip =
      rw (← fail_entry-config l m t (m.attempts ip) w.limit w.window w.ban)
        (fail_entry-Alike l now t later (l.attempts ip) (m.attempts ip) (w.alike ip))

  apply-Twins : (e : Event) → e ≢ cleaned → Twins t (apply l (t, e)) (apply m (t, e))
  unfolding apply
  apply-Twins (failed ip) h = stored-Twins ip _ _ (failed-Alike ip).0
  apply-Twins (success ip) h = stored-Twins ip none none (inl (tt, tt))
  apply-Twins (notified ip) h =
      stored-Twins ip _ _
        (notify_entry-Alike l now t later (l.attempts ip) (m.attempts ip) (w.alike ip))
  apply-Twins (asked ip) h = record {
    limit = w.limit;
    window = w.window;
    ban = w.ban;
    alike = λ ip. Alike-later l now t _ _ later (w.alike ip);
  }
  apply-Twins cleaned h = absurd (h refl)

  cleanup-Twins : IsValid l → Twins t (cleanup l t) m
  unfolding cleanup
  cleanup-Twins v = record {
    limit = w.limit;
    window = w.window;
    ban = w.ban;
    alike = λ ip. clean_entry-Alike l now t later _ _ (v.sound ip) (w.alike ip);
  }

  answer-Twins : (e : Event) → answer l (t, e) ≡ answer m (t, e)
  unfolding answer
  answer-Twins (failed ip) = ap (λ (b : Bool). (b, false) ∷ []) (failed-Alike ip).1
  answer-Twins (success ip) = refl
  answer-Twins (notified ip) = refl
  answer-Twins (asked ip) = rw (← banned_entry-config l m t (m.attempts ip) w.ban) (
      ap (λ (b : Bool × Bool). b ∷ [])
        (banned_entry-Alike l now t later (l.attempts ip) (m.attempts ip) (w.alike ip)))
  answer-Twins cleaned = refl

answers-Twins :
    (l m : LoginLimiter) (now : ℕ) (es : List (ℕ × Event))
    → IsValid l
    → Twins now l m
    → Ordered now es
    → answers l es ≡ answers m (without_cleanups es)
unfolding answers without_cleanups
answers-Twins l m now [] v w o = refl
answers-Twins l m now ((t, cleaned) ∷ es) v w (p, o) =
    answers-Twins (cleanup l t) m t es (apply-IsValid l (t, cleaned) v)
      (cleanup-Twins l m now t p w v) o
answers-Twins l m now ((t, e) ∷ es) v w (p, o) =
    ap₂ (λ x y. x ++ y) (answer-Twins l m now t p w e)
      (answers-Twins (apply l (t, e)) (apply m (t, e)) t es (apply-IsValid l (t, e) v)
        (apply-Twins l m now t p w e (λ h. cc)) o)

Agree-refl : (o : Option IpAttempts) → Agree o o
Agree-refl none = tt
Agree-refl (some e) = ground arith

Twins-refl : (now : ℕ) (l : LoginLimiter) → Twins now l l
Twins-refl now l = record {
  limit = refl;
  window = refl;
  ban = refl;
  alike = λ ip. inr (Agree-refl (l.attempts ip));
}

-- From a well-formed limiter, whatever the calls and wherever cleanups fall among them, at times
-- that do not fall, every answer of RecordFailedAttempt and IsBanned is the one that the limiter
-- would give if no cleanup ever ran.
pub answers-cleanup :
    (l : LoginLimiter) (now : ℕ) (es : List (ℕ × Event))
    → IsValid l
    → Ordered now es
    → answers l es ≡ answers l (without_cleanups es)
answers-cleanup l now es v o = answers-Twins l l now es v (Twins-refl now l) o
