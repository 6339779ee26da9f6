-- ===== src/Database/Sound/Accounts.antt =====
-- internal/repository/users.go and admin.go: the statements on users, sessions, codes and destinations, and
-- sound tables.
use anime_request_server.Prelude.{
  ℕ, String, ◌≡◌, refl, sym, ◌∙◌, Bool, true, false, not, ◌&&◌, ◌||◌, Bool-cases, inl, inr, none,
  some, List, [], ◌∷◌, ◌++◌, map, arith, same_id, ◌==◌, if◌then◌else◌, any, filter, All, All-append,
  All-filter, All-filtered, All-weaken,
}
use anime_request_server.Models.{Uuid, User, Session, ServerDestination, InviteCode}
use anime_request_server.Database.Tables.{Db}
use anime_request_server.Database.Apart.{Apart, Apart-append, Apart-filter}
use anime_request_server.Database.Requests.{has_user}
use anime_request_server.Database.Requests.Names.{if-post}
use anime_request_server.Database.Accounts.{
  is_role, set_user, use_code, insert_user, update_user, insert_session, delete_session,
  delete_expired_sessions, insert_invite, use_invite, delete_invite, insert_destination,
  delete_destination,
}
use anime_request_server.Database.Sound.{
  id_clash_comm, text_clash_comm, Grows-append, is_known-filter, is_known-map, user_id,
  destination_id, listed_role, UserIsKnown, IsSound, IsSound-users, IsSound-sessions,
  IsSound-invites, IsSound-destinations, LinksSound-Grows, link_clash_comm,
}
use anime_request_server.Server.Ensures.{EffectPost}

-- Rows that keep what the relation reads keep apart.
module _ {A : Type 0} (clash : A → A → Bool) (f : A → A) where
  any-map : (p : A → Bool) (xs : List A) → ((x : A) → p (f x) ≡ p x) → any p (map f xs) ≡ any p xs
  any-map p [] h = refl
  any-map p (x ∷ xs) h = rw (h x, any-map p xs h) refl

  Apart-map :
      (xs : List A)
      → ((x y : A) → clash (f x) (f y) ≡ clash x y)
      → ((x y : A) → clash x (f y) ≡ clash x y)
      → Apart clash xs
      → Apart clash (map f xs)
  Apart-map [] h k a = tt
  Apart-map (x ∷ xs) h k a = (
    any-map (clash (f x)) xs (λ y. h x y ∙ sym (left x y)) ∙ any_left x xs ∙ a.0,
    Apart-map xs h k a.1,
  )
    where
      left : (x y : A) → clash (f x) y ≡ clash x y
      left x y = sym (k (f x) y) ∙ h x y

      any_left : (x : A) (ys : List A) → any (clash (f x)) ys ≡ any (clash x) ys
      any_left x [] = refl
      any_left x (y ∷ ys) = rw (left x y, any_left x ys) refl

All-map :
    {A : Type 0} (f : A → A) (P : A → Type 0) (xs : List A)
    → ((x : A) → P x → P (f x))
    → All P xs
    → All P (map f xs)
All-map f P [] h a = tt
All-map f P (x ∷ xs) h a = (h x a.0, All-map f P xs h a.1)

module _ (lower : String → String) where
  abbrev Sound : {A : Type 0} → A → Db → Type 0
  Sound a d = IsSound lower d

  pub insert_user-IsSound :
      (u : User) (d : Db) → IsSound lower d → EffectPost Sound (insert_user u d)
  unfolding insert_user
  insert_user-IsSound u d h =
      if-post lower _ (not (is_role u.role)) _ _ (λ _. tt)
        λ role.
          if-post lower _ (has_user u.id d) _ _ (λ _. tt)
            λ id.
              if-post lower _ (any (λ (v : User). v.username == u.username) d.users) _ _ (λ _. tt)
                λ name.
                  IsSound-users lower d (d.users ++ u ∷ []) (Grows-append user_id d.users (u ∷ []))
                    (record {
                      ids = Apart-append _ (id_clash_comm user_id) d.users u h.users.ids id;
                      names =
                          Apart-append _ (text_clash_comm (λ v. v.username)) d.users u h.users.names
                            name;
                      roles = All-append _ d.users (u ∷ []) h.users.roles (ground arith, tt);
                    })
                    h

  module _ (id : Uuid) (set : User → User) (same : (u : User) → (set u).id ≡ u.id)
      (named : (u : User) → (set u).username ≡ u.username) where
    set_user-id : (u : User) → (set_user id set u).id ≡ u.id
    set_user-id u = ground (arith, same u)

    set_user-username : (u : User) → (set_user id set u).username ≡ u.username
    set_user-username u = ground (arith, named u)

    set_user-roles :
        (us : List User)
        → any (λ (u : User). same_id u.id id && not (is_role (set u).role)) us ≡ false
        → All (λ (u : User). listed_role u.role ≡ true) us
        → All (λ (u : User). listed_role u.role ≡ true) (map (set_user id set) us)
    set_user-roles [] h a = tt
    set_user-roles (u ∷ us) h a = (
      elim (Bool-cases (same_id u.id id)) [ inl e ↦ rw e (checked _ _ _ e h) | inr e ↦ rw e a.0 ],
      set_user-roles us (rest _ _ h) a.1,
    )
      where
        checked : (b r s : Bool) → b ≡ true → (b && not r || s) ≡ false → r ≡ true
        checked b r s e h = ground arith

        rest : (b s : Bool) → (b || s) ≡ false → s ≡ false
        rest b s h = ground arith

    pub update_user-IsSound : (d : Db) → IsSound lower d → EffectPost Sound (update_user id set d)
    unfolding update_user
    update_user-IsSound d h =
        if-post lower _ (any (λ (u : User). same_id u.id id && not (is_role (set u).role)) d.users)
          _ _ (λ _. tt)
          λ roles.
            IsSound-users lower d (map (set_user id set) d.users)
              (λ i k. is_known-map user_id (set_user id set) d.users i set_user-id ∙ k)
              (record {
                ids =
                    Apart-map _ (set_user id set) d.users
                      (λ u v. rw (set_user-id u, set_user-id v) refl)
                      (λ u v. rw (set_user-id v) refl) h.users.ids;
                names =
                    Apart-map _ (set_user id set) d.users
                      (λ u v. rw (set_user-username u, set_user-username v) refl)
                      (λ u v. rw (set_user-username v) refl) h.users.names;
                roles = set_user-roles d.users roles h.users.roles;
              })
              h

  module _ (d : Db) (h : IsSound lower d) where
    pub insert_session-IsSound : (s : Session) → EffectPost Sound (insert_session s d)
    unfolding insert_session
    insert_session-IsSound s =
        if-post lower _ (any (λ (t : Session). same_id t.id s.id) d.sessions) _ _ (λ _. tt)
          λ id.
            if-post lower _ (any (λ (t : Session). t.token_hash == s.token_hash) d.sessions) _ _
              (λ _. tt)
              λ hash.
                if-post lower _ (not (has_user s.user_id d)) _ _ (λ _. tt)
                  λ owner. IsSound-sessions lower d h _ (record {
                    ids = Apart-append _ (id_clash_comm (λ t. t.id)) d.sessions s h.sessions.ids id;
                    hashes =
                        Apart-append _ (text_clash_comm (λ t. t.token_hash)) d.sessions s
                          h.sessions.hashes hash;
                    owners = All-append _ d.sessions (s ∷ []) h.sessions.owners (ground arith, tt);
                  })

    kept_sessions :
        (p : Session → Bool) → IsSound lower (record d { sessions = filter p d.sessions })
    kept_sessions p = IsSound-sessions lower d h _ (record {
      ids = Apart-filter _ (id_clash_comm (λ t. t.id)) p d.sessions h.sessions.ids;
      hashes = Apart-filter _ (text_clash_comm (λ t. t.token_hash)) p d.sessions h.sessions.hashes;
      owners = All-filter _ p d.sessions h.sessions.owners;
    })

    pub delete_session-IsSound : (id : Uuid) → EffectPost Sound (delete_session id d)
    unfolding delete_session
    delete_session-IsSound id = kept_sessions _

    pub delete_expired_sessions-IsSound :
        (now : ℕ) → EffectPost Sound (delete_expired_sessions now d)
    unfolding delete_expired_sessions
    delete_expired_sessions-IsSound now = kept_sessions _

    pub insert_invite-IsSound :
        (c : InviteCode) → c.used_by ≡ none → EffectPost Sound (insert_invite c d)
    unfolding insert_invite
    insert_invite-IsSound c unused =
        if-post lower _ (any (λ (b : InviteCode). same_id b.id c.id) d.invite_codes) _ _ (λ _. tt)
          λ id.
            if-post lower _ (any (λ (b : InviteCode). b.code == c.code) d.invite_codes) _ _
              (λ _. tt)
              λ code.
                if-post lower _ (not (has_user c.created_by d)) _ _ (λ _. tt)
                  λ creator. IsSound-invites lower d h _ (record {
                    ids =
                        Apart-append _ (id_clash_comm (λ b. b.id)) d.invite_codes c h.invites.ids
                          id;
                    codes =
                        Apart-append _ (text_clash_comm (λ b. b.code)) d.invite_codes c
                          h.invites.codes code;
                    creators =
                        All-append _ d.invite_codes (c ∷ []) h.invites.creators (ground arith, tt);
                    users = All-append _ d.invite_codes (c ∷ []) h.invites.users (rw unused tt, tt);
                  })

    marked_user :
        (c : InviteCode) (b : Bool) (user : Uuid)
        → (b ≡ true → has_user user d ≡ true)
        → UserIsKnown d.users c.used_by
        → UserIsKnown d.users (if b then record c { used_by = some user } else c).used_by
    marked_user c true user known k = known refl
    marked_user c false user known k = k

    hit : (b r k : Bool) → ((b || r) && not k) ≡ false → b ≡ true → k ≡ true
    hit b r k h e = ground arith

    missed : (b r k : Bool) → ((b || r) && not k) ≡ false → (r && not k) ≡ false
    missed b r k h = ground arith

    marked_users :
        (code user : Uuid) (cs : List InviteCode)
        → (any (λ (c : InviteCode). same_id c.id code) cs && not (has_user user d)) ≡ false
        → All (λ (c : InviteCode). UserIsKnown d.users c.used_by) cs
        → All (λ (c : InviteCode). UserIsKnown d.users c.used_by) (map (use_code code user) cs)
    marked_users code user [] known a = tt
    marked_users code user (c ∷ cs) known a = (
      marked_user c (same_id c.id code) user (hit _ _ _ known) a.0,
      marked_users code user cs (missed (same_id c.id code) _ _ known) a.1,
    )

    use_code-id : (code user : Uuid) (c : InviteCode) → (use_code code user c).id ≡ c.id
    use_code-id code user c = ground arith

    use_code-code : (code user : Uuid) (c : InviteCode) → (use_code code user c).code ≡ c.code
    use_code-code code user c = ground arith

    use_code-created_by :
        (code user : Uuid) (c : InviteCode) → (use_code code user c).created_by ≡ c.created_by
    use_code-created_by code user c = ground arith

    pub use_invite-IsSound : (code user : Uuid) → EffectPost Sound (use_invite code user d)
    unfolding use_invite
    use_invite-IsSound code user =
        if-post lower _
          (any (λ (c : InviteCode). same_id c.id code) d.invite_codes && not (has_user user d)) _ _
          (λ _. tt)
          λ known. IsSound-invites lower d h _ (record {
            ids =
                Apart-map _ (use_code code user) d.invite_codes
                  (λ b c. rw (use_code-id code user b, use_code-id code user c) refl)
                  (λ b c. rw (use_code-id code user c) refl) h.invites.ids;
            codes =
                Apart-map _ (use_code code user) d.invite_codes
                  (λ b c. rw (use_code-code code user b, use_code-code code user c) refl)
                  (λ b c. rw (use_code-code code user c) refl) h.invites.codes;
            creators =
                All-map (use_code code user) _ d.invite_codes
                  (λ c k. rw (use_code-created_by code user c) k) h.invites.creators;
            users = marked_users code user d.invite_codes known h.invites.users;
          })

    pub delete_invite-IsSound : (id : Uuid) → EffectPost Sound (delete_invite id d)
    unfolding delete_invite
    delete_invite-IsSound id = IsSound-invites lower d h _ (record {
      ids = Apart-filter _ (id_clash_comm (λ c. c.id)) _ d.invite_codes h.invites.ids;
      codes = Apart-filter _ (text_clash_comm (λ c. c.code)) _ d.invite_codes h.invites.codes;
      creators = All-filter _ _ d.invite_codes h.invites.creators;
      users = All-filter _ _ d.invite_codes h.invites.users;
    })

    pub insert_destination-IsSound :
        (s : ServerDestination) → EffectPost Sound (insert_destination s d)
    unfolding insert_destination
    insert_destination-IsSound s =
        if-post lower _ (any (λ (t : ServerDestination). same_id t.id s.id) d.server_destinations) _
          _ (λ _. tt)
          λ id.
            if-post lower _
              (any (λ (t : ServerDestination). t.name == s.name) d.server_destinations) _ _
              (λ _. tt)
              λ name.
                if-post lower _ (not (has_user s.created_by d)) _ _ (λ _. tt)
                  λ creator.
                    IsSound-destinations lower d h _ d.links
                      (record {
                        ids =
                            Apart-append _ (id_clash_comm destination_id) d.server_destinations s
                              h.destinations.ids id;
                        names =
                            Apart-append _ (text_clash_comm (λ t. t.name)) d.server_destinations s
                              h.destinations.names name;
                        creators =
                            All-append _ d.server_destinations (s ∷ []) h.destinations.creators
                              (ground arith, tt);
                      })
                      (LinksSound-Grows d.requests d.requests d.server_destinations
                        (d.server_destinations ++ s ∷ []) d.links (λ i k. k)
                        (Grows-append destination_id d.server_destinations (s ∷ [])) h.links)

    -- The links of the destination go with it.
    pub delete_destination-IsSound : (id : Uuid) → EffectPost Sound (delete_destination id d)
    unfolding delete_destination
    delete_destination-IsSound id =
        IsSound-destinations lower d h _ _
          (record {
            ids =
                Apart-filter _ (id_clash_comm destination_id) _ d.server_destinations
                  h.destinations.ids;
            names =
                Apart-filter _ (text_clash_comm (λ t. t.name)) _ d.server_destinations
                  h.destinations.names;
            creators = All-filter _ _ d.server_destinations h.destinations.creators;
          })
          (record {
            pairs = Apart-filter _ link_clash_comm _ d.links h.links.pairs;
            requests = All-filter _ _ d.links h.links.requests;
            destinations =
                All-weaken _ _ (filter (λ l. not (same_id l.server_destination_id id)) d.links)
                  (λ l k.
                    is_known-filter destination_id (λ s. not (same_id s.id id))
                      d.server_destinations l.server_destination_id
                      (λ s e. other s.id l.server_destination_id id e k.1) k.0)
                  (All-filtered _ (λ l. not (same_id l.server_destination_id id)) d.links
                    h.links.destinations);
          })
      where
        other :
            (i j k : ℕ) → same_id i j ≡ true → not (same_id j k) ≡ true → not (same_id i k) ≡ true
        other i j k e n = ground arith
