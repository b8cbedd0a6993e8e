-- ===== src/Auth/Trace.antt =====
-- The operations of app/services/auth_service.py that write to the token and session tables, as
-- the steps of a run of the service.
use omnibioai_auth.Prelude.{ℕ, String, Option, List, [], ◌∷◌}
use omnibioai_auth.Models.{Time, Reason, User, Db}
use omnibioai_auth.Session.{Settings}
use omnibioai_auth.Auth.Refresh.{
  Crypto, Call, TeamChoice, revoke_token, revoke_session, revoke_all_sessions_for_user,
  rotate_refresh_token,
}
use omnibioai_auth.Auth.Issue.{LoginContext, generate_tokens}

pub data Operation : Type 0 where
  login : Call → User → LoginContext → Operation
  refresh : Call → String → TeamChoice → Operation
  logout : Time → String → Operation
  end_session : Time → String → Operation
  end_all : Time → ℕ → Reason → Option ℕ → Operation

-- A condition on the requests that sign tokens.
abbrev pub Admits : (Call → Db → Type 0) → Operation → Db → Type 0
Admits Ok (login call user ctx) db = Ok call db
Admits Ok (refresh call token team) db = Ok call db
Admits Ok _ db = Unit

module _ (cfg : Settings) (c : Crypto) where
  unfoldable pub step : Operation → Db → Db
  step (login call user ctx) db = (generate_tokens cfg c call user ctx db).1
  step (refresh call token team) db = (rotate_refresh_token cfg c call token team db).1
  step (logout now token) db = revoke_token c now token db
  step (end_session now session_id) db = (revoke_session now session_id db).1
  step (end_all now user_id reason actor) db =
      (revoke_all_sessions_for_user now user_id reason actor db).1

  unfoldable pub run : List Operation → Db → Db
  run [] db = db
  run (op ∷ ops) db = run ops (step op db)

  -- The condition holds at each step of a run.
  abbrev pub AllAdmit : (Call → Db → Type 0) → List Operation → Db → Type 0
  AllAdmit Ok [] db = Unit
  AllAdmit Ok (op ∷ ops) db = Admits Ok op db × AllAdmit Ok ops (step op db)
