-- ===== src/Tests/Invitations.antt =====
-- A run of an invitation, from its creation to a second attempt to accept it.
use omnibioai_auth.Prelude.{true, none, List, [], ◌∷◌}
use omnibioai_auth.Models.{seconds}
use omnibioai_auth.Invitation.{InvitationSettings, Draw}
use omnibioai_auth.Invitation.Accept.{Acceptance}
use omnibioai_auth.Invitation.Lifecycle.{Reach, look}
use omnibioai_auth.Invitation.Runs.{InvitationCall, invitation_calls, invitation_calls-Reach}
use omnibioai_auth.Tests.{db, lab, alice}
use omnibioai_auth.Tests.Factors.{plain_mfa}

abbrev settings : InvitationSettings
settings = record {
  enabled = true;
  accept_url = "https://lab.org/accept";
  accept_url_valid = true;
  ttl_seconds = 3600;
  max_accept_attempts = 3;
}

abbrev draw : Draw
draw = record { token = "t"; id = 1; role_id = 50; delivered = true }

abbrev acceptance : Acceptance
acceptance = record {
  sha256 = λ s. s;
  mfa = plain_mfa;
  mfa_configured = true;
  hash_password = λ s. s;
  verify_password = λ password hash. true;
  password_allowed = λ password email. true;
  max_accept_attempts = 3;
  now = seconds 100;
  new_secret = "secret";
  user_id = 3;
  device_id = 8;
  role_id = 51;
  membership_id = 4;
}

abbrev requests : List InvitationCall
requests =
    InvitationCall.create settings (λ s. s) (λ o email. email) (seconds 50) draw lab alice true
      "carol@lab" []
    ∷ InvitationCall.accept_new acceptance "t" "password" none
    ∷ InvitationCall.revoke (seconds 120) 1 1
    ∷ []

invitation_calls-Reach_example :
    Reach (look "t" db.invitations) (look "t" (invitation_calls requests db).invitations)
invitation_calls-Reach_example = invitation_calls-Reach "t" requests db
