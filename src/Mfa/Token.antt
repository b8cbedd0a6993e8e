-- ===== src/Mfa/Token.antt =====
-- The claims of a challenge token, `create_mfa_challenge_token` of app/core/jwt.py. Signing is a
-- parameter, as is the random `jti`.
use omnibioai_auth.Prelude.{ℕ, ◌+◌, String, Option, some}
use omnibioai_auth.Models.{Time, seconds}
use omnibioai_auth.Auth.Issue.{LoginContext}

-- What a decoded token says; a missing claim is `none`.
pub record ChallengePayload : Type 0 where
  pub token_type : String
  pub jti : Option String
  pub user_id : Option ℕ
  pub auth_method : Option String
  pub idp_org_id : Option ℕ
  pub saml_name_id : Option String
  pub saml_session_index : Option String
  pub organization_saml_config_id : Option ℕ
  pub required_stage : Option String
  pub exp : Time

-- Of the context the address and the agent are not carried.
unfoldable pub create_mfa_challenge_token :
    (ChallengePayload → String) → Time → String → ℕ → LoginContext → Option String → String
create_mfa_challenge_token sign now jti user_id ctx required_stage = sign (record {
  token_type = "mfa_challenge";
  jti = some jti;
  user_id = some user_id;
  auth_method = some ctx.auth_method;
  idp_org_id = ctx.idp_org_id;
  saml_name_id = ctx.saml_name_id;
  saml_session_index = ctx.saml_session_index;
  organization_saml_config_id = ctx.organization_saml_config_id;
  required_stage = required_stage;
  exp = now + seconds 300;
})
