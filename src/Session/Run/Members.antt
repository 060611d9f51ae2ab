-- ===== src/Session/Run/Members.antt =====
-- Clients keep their sessions alive (backend/internal/session/manager.go).
use serein.Base.{
  ℕ, ◌≡◌, refl, ◌∙◌, subst, Bool, true, false, not, ◌&&◌, none, some, String, List, [], ◌∷◌, ◌++◌,
  str_eq, eq_iff, arith, any, Bool-cases, Option-cases, inl, inr,
}
use serein.Base.Table.{find_key, update_key, upsert_key}
use serein.Base.Rows.{find_key-update, find_key-append_old, upsert_key_new, upsert_key_old}
use serein.Session.Manager.{
  ClientInfo, Session, Manager, session_key, client_key, entry_key, is_expired, lookup,
  fresh_session, create_session, scoped_session_key, get_or_create_scoped_session, touched, joined,
  without, left, is_empty, cleanup, remove_session,
}
use serein.Session.Run.{
  Call, creates, creates_scoped, joins, leaves, cleans, removes, perform, run, is_unused, draws_new,
  draw_new, unused,
}
use serein.Session.Run.Cleanup.{cleanup_lem, find_key-without}

abbrev pub has_client : String → List ClientInfo → Bool
has_client client clients = any (λ c. str_eq c.client_id client) clients

module _ (id client : String) where
  -- The session is live, and the client is in it.
  pub record IsMember (m : Manager) : Type 0 where
    pub session : Session
    pub is_live : find_key session_key id m.sessions ≡ some session
    pub has_joined : has_client client session.clients ≡ true

  -- The calls that end this: the client leaves, or the session is removed.
  abbrev pub stays : Call → Bool
  stays (leaves id' client' now) = not (str_eq id' id && str_eq client' client)
  stays (removes id') = not (str_eq id' id)
  stays _ = true

  abbrev pub all_stay : List Call → Bool
  all_stay [] = true
  all_stay (c ∷ calls) = stays c && all_stay calls

  update-IsMember :
      (j : String) (f : Session → Session) (m : Manager)
      → ((s : Session) → (f s).id ≡ s.id)
      → ((s : Session)
          → str_eq j id ≡ true
          → has_client client s.clients ≡ true
          → has_client client (f s).clients ≡ true)
      → IsMember m
      → IsMember (record m { sessions = update_key session_key j (λ _. true) f m.sessions })
  update-IsMember j f m same keep h =
      let found = find_key-update session_key j id f m.sessions h.session same h.is_live in
      elim (Bool-cases (str_eq j id)) [
        | inl e ↦ record {
          session = f h.session;
          is_live = rw e at found;
          has_joined = keep h.session e h.has_joined;
        }
        | inr e ↦ record { session = h.session; is_live = rw e at found; has_joined = h.has_joined }
      ]

  has_client-append :
      (clients more : List ClientInfo)
      → has_client client clients ≡ true
      → has_client client (clients ++ more) ≡ true
  has_client-append [] more h = absurd (ground (arith, h))
  has_client-append (c ∷ clients) more h = ground (arith, has_client-append clients more)

  has_client-update :
      (c : ClientInfo) (clients : List ClientInfo)
      → has_client client clients ≡ true
      → has_client client (update_key client_key c.client_id (λ _. true) (λ _. c) clients) ≡ true
  unfolding update_key
  has_client-update c [] h = h
  has_client-update c (x ∷ clients) h = ground (
    arith,
    eq_iff x.client_id c.client_id,
    eq_iff x.client_id client,
    eq_iff c.client_id client,
    has_client-update c clients,
  )

  has_client-upsert :
      (c : ClientInfo) (clients : List ClientInfo)
      → has_client client clients ≡ true
      → has_client client (upsert_key client_key c (λ _. c) clients) ≡ true
  has_client-upsert c clients h = elim (Option-cases (find_key client_key c.client_id clients)) [
    | inl e ↦
        rw (upsert_key_new client_key c (λ _. c) clients e) (has_client-append clients (c ∷ []) h)
    | inr (o, e) ↦
        rw (upsert_key_old client_key c (λ _. c) clients o e) (has_client-update c clients h)
  ]

  has_client-without :
      (client' : String) (clients : List ClientInfo)
      → str_eq client' client ≡ false
      → has_client client clients ≡ true
      → has_client client (without client' clients) ≡ true
  has_client-without client' [] ne h = h
  has_client-without client' (c ∷ clients) ne h = ground (
    arith,
    eq_iff c.client_id client',
    eq_iff c.client_id client,
    eq_iff client' client,
    has_client-without client' clients ne,
  )

  add-IsMember :
      (s : Session) (m : Manager)
      → find_key session_key s.id m.sessions ≡ none
      → IsMember m
      → IsMember (record m { sessions = m.sessions ++ s ∷ [] })
  add-IsMember s m new h = record {
    session = h.session;
    is_live = find_key-append_old session_key id m.sessions (s ∷ []) h.session h.is_live;
    has_joined = h.has_joined;
  }

  -- Only the sessions matter.
  of_sessions : (m m' : Manager) → m.sessions ≡ m'.sessions → IsMember m → IsMember m'
  of_sessions m m' e h = record {
    session = h.session;
    is_live = subst (λ t. find_key session_key id t ≡ some h.session) e h.is_live;
    has_joined = h.has_joined;
  }

  has_client-is_empty :
      (clients : List ClientInfo) → has_client client clients ≡ true → is_empty clients ≡ false
  has_client-is_empty [] h = absurd (ground (arith, h))
  has_client-is_empty (c ∷ clients) h = refl

  unexpired_member :
      (now : ℕ) (s : Session) → has_client client s.clients ≡ true → is_expired now s ≡ false
  unfolding is_expired
  unexpired_member now s h = ground (arith, has_client-is_empty s.clients h)

  cleanup-IsMember : (now : ℕ) (m : Manager) → IsMember m → IsMember (cleanup now m)
  cleanup-IsMember now m h = record {
    session = h.session;
    is_live =
        cleanup_lem now id m ∙ rw (h.is_live, unexpired_member now h.session h.has_joined) refl;
    has_joined = h.has_joined;
  }

  create-IsMember :
      (new : String) (now : ℕ) (project : String) (m : Manager)
      → is_unused new m ≡ true
      → IsMember m
      → IsMember (create_session new now project m).1
  unfolding create_session
  create-IsMember new now project m fresh h =
      elim (Option-cases (lookup (find_key entry_key project m.projects) m.sessions)) [
        | inl e ↦
            let s = fresh_session new project "" now in
            rw (e, upsert_key_new session_key s (λ _. s) m.sessions (unused new m fresh))
              (of_sessions (record m { sessions = m.sessions ++ s ∷ [] }) _ refl
                (add-IsMember s m (unused new m fresh) h))
        | inr (s, e) ↦ rw e h
      ]

  create_scoped-IsMember :
      (new : String) (now : ℕ) (project scope : String) (m : Manager)
      → is_unused new m ≡ true
      → IsMember m
      → IsMember (get_or_create_scoped_session new now project scope m).1
  unfolding get_or_create_scoped_session
  create_scoped-IsMember new now project scope m fresh h =
      elim (Option-cases
        (lookup (find_key entry_key (scoped_session_key project scope) m.scopes) m.sessions)) [
          | inl e ↦
              let s = fresh_session new project scope now in
              rw (e, upsert_key_new session_key s (λ _. s) m.sessions (unused new m fresh))
                (of_sessions (record m { sessions = m.sessions ++ s ∷ [] }) _ refl
                  (add-IsMember s m (unused new m fresh) h))
          | inr (s, e) ↦ rw e (update-IsMember s.id (touched now) m (λ _. refl) (λ _ _ k. k) h)
        ]

  remove-IsMember :
      (j : String) (m : Manager) → str_eq j id ≡ false → IsMember m → IsMember (remove_session j m)
  unfolding remove_session
  remove-IsMember j m ne h = elim (Option-cases (find_key session_key j m.sessions)) [
    | inl e ↦ rw e h
    | inr (s, e) ↦ rw e (record {
      session = h.session;
      is_live = find_key-without j id m.sessions ∙ rw ne h.is_live;
      has_joined = h.has_joined;
    })
  ]

  perform-IsMember :
      (c : Call) (m : Manager)
      → stays c ≡ true
      → draws_new c m ≡ true
      → IsMember m
      → IsMember (perform c m)
  unfolding perform
  perform-IsMember (creates new now project) m s d h = create-IsMember new now project m d h
  perform-IsMember (creates_scoped new now project scope) m s d h =
      create_scoped-IsMember new now project scope m d h
  perform-IsMember (joins j other kind now) m s d h =
      update-IsMember j (joined other kind now) m (λ _. refl)
        (λ t _ k.
          has_client-upsert (record { client_id = other; client_type = kind; joined_at = now })
            t.clients k)
        h
  perform-IsMember (leaves j other now) m s d h =
      update-IsMember j (left other now) m (λ _. refl)
        (λ t e k. has_client-without other t.clients (ground (arith, s, e)) k) h
  perform-IsMember (cleans now) m s d h = cleanup-IsMember now m h
  perform-IsMember (removes j) m s d h = remove-IsMember j m (ground (arith, s)) h

  -- A client keeps its session alive: once it is in a live session, it is so after any calls, at any
  -- times, whose random ids are new, unless the client leaves that session or the session is removed.
  pub run-IsMember :
      (calls : List Call) (m : Manager)
      → all_stay calls ≡ true
      → draw_new calls m ≡ true
      → IsMember m
      → IsMember (run calls m)
  unfolding draw_new run
  run-IsMember [] m s d h = h
  run-IsMember (c ∷ calls) m s d h =
      run-IsMember calls (perform c m) (ground arith) (ground arith)
        (perform-IsMember c m (ground arith) (ground arith) h)
