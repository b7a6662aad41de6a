-- ===== src/Middleware/Visits.antt =====
-- A session is good for requests until it expires or is destroyed.
use gitwise.Prelude.{
  ℕ, ◌+◌, String, true, not, ◌&&◌, none, some, List, [], ◌∷◌, ◌++◌, ◌≡◌, refl, ap, ◌∙◌, arith, ltb,
  ◌==◌, if◌then◌else◌, str_eq, str_eq_refl, find, keep, find-append,
}
use gitwise.Text.{byte_len}
use gitwise.Action.{no_faults}
use gitwise.Auth.{Crypto, Session, World, is_session}
use gitwise.Auth.Login.{session_expiry, opened, create_session}
use gitwise.Middleware.{is_hex, get, destroy, session_user, request_user}

no_session :
    (now : ℕ) (id : String) (ss : List Session)
    → find (is_session now id) (keep (λ s. not (str_eq s.id id)) ss) ≡ none
no_session now id [] = refl
no_session now id (s ∷ ss) = ground (arith, no_session now id ss)

module _ (c : Crypto) (sha256 : String → List ℕ) (id : String)
    (formed : (byte_len id == 64 && is_hex id) ≡ true) where
  request_user-find :
      (now : ℕ) (w : World)
      → (request_user c sha256 no_faults now "" (some id) w).0
        ≡ session_user (some (find (is_session now id) w.sessions))
  unfolding request_user get
  request_user-find now w = rw formed refl

  -- With the cookie of a session that has just been made, and without a token, a request is one of
  -- the session's user until the session expires, and of nobody afterwards or once the session is
  -- destroyed, if no statement fails and the cookie is 64 hexadecimal digits.
  pub create_session-request_user :
      (now user_id later : ℕ) (w : World)
      → ((request_user c sha256 no_faults later ""
            (some id)
            (create_session no_faults now (some id) user_id w).1).0
          ≡ (if ltb later (now + session_expiry) then some user_id else none))
        × ((request_user c sha256 no_faults later ""
              (some id)
              (destroy no_faults id (create_session no_faults now (some id) user_id w).1)).0
            ≡ none)
  unfolding create_session destroy
  create_session-request_user now user_id later w =
      let kept = keep (λ s. not (str_eq s.id id)) w.sessions in
      let w' = (create_session no_faults now (some id) user_id w).1 in
      let made : find (is_session later id) (kept ++ opened now id user_id ∷ [])
          ≡ (if ltb later (now + session_expiry) then some (opened now id user_id) else none) =
        find-append (is_session later id) kept (opened now id user_id ∷ [])
          (no_session later id w.sessions)
        ∙ ground (arith, str_eq_refl id) in
      (
        request_user-find later w' ∙ ground (arith, made),
        request_user-find later (destroy no_faults id w')
            ∙ ap (λ o. session_user (some o)) (no_session later id w'.sessions),
      )
