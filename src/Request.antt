-- ===== src/Request.antt =====
-- The request as the filters see it: its headers, its peer and the values that pkg/proxy/context
-- (and the Kubernetes request context) keeps on it, one field for each context key. The two
-- holders that the keys share by pointer, for the decision and for the termination, are cells of
-- the request's run (Chain), since every derived request sees the same one.
use kube_oidc_proxy.Base.{Text, List, Bool, Option}
use kube_oidc_proxy.Header.{Header}

-- user.Info
pub record UserInfo : Type 0 where
  pub name : Text
  pub uid : Text
  pub groups : List Text
  pub extra : List (Text × List Text)

-- transport.ImpersonationConfig
pub record ImpersonationConfig : Type 0 where
  pub user_name : Text
  pub uid : Text
  pub groups : List Text
  pub extra : List (Text × List Text)

-- ImpersonationRequest; the two users are the code's pointers to possibly nil interfaces.
pub record ImpersonationRequest : Type 0 where
  pub config : ImpersonationConfig
  pub inbound_user : Option UserInfo
  pub impersonated_user : Option UserInfo

pub record Context : Type 0 where
  pub no_impersonation : Bool
  pub impersonation_config : Option ImpersonationRequest
  pub bearer_token : Option Text
  pub client_address : Option Text
  pub original_forwarded_for : Option Text
  pub request_id : Option Text
  pub client_request_id : Option Text
  pub issuer_name : Option Text
  pub auth_method : Option Text
  pub user : Option UserInfo

pub record Request : Type 0 where
  pub header : Header
  pub remote_addr : Text
  pub ctx : Context
