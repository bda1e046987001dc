-- ===== src/Examples/Tokens.antt =====
-- A token review against a server that authenticates every token, with an empty store.
use kube_oidc_proxy.Base.{
  Text, codes, arith, All, true, Option, none, some, List, [], ◌∷◌, ◌≡◌, refl,
}
use kube_oidc_proxy.Base.Result.{ok}
use kube_oidc_proxy.Request.{UserInfo}
use kube_oidc_proxy.TokenReview.{Answer, Store, Reviewer, cache_key, authenticate_token}
use kube_oidc_proxy.TokenReview.Key.{IsShort, key_message_inj}
use kube_oidc_proxy.TokenReview.Failing.{
  IsStore, IsTruthful, IsReviewed, authenticate_token-IsReviewed,
}

abbrev service : UserInfo
service = record { name = codes "builder"; uid = []; groups = []; extra = [] }

abbrev store : Store (List (Text × Answer))
store = record {
  hash = λ bytes. bytes;
  get = λ k w. (none, w);
  add = λ k a ttl w. (k, a) ∷ w;
  create = λ token audiences w.
      (ok (record { error = []; authenticated = true; audiences = audiences; user = service }), w);
}

no_hit : {a : Answer} → ◌≡◌ {A = Option Answer} none (some a) → ⊥
no_hit z = cc

laws : IsStore store
laws = record {
  entries = λ w. w;
  get_hit = λ k w a e. absurd (no_hit e);
  get_entries = λ k w e m. m;
  add_entries = λ k a ttl w e m. m;
  create_entries = λ token audiences w e m. m;
}

abbrev reviewer : Reviewer
reviewer = record { audiences = codes "api" ∷ []; success_ttl = 10; failure_ttl = 0 }

empty-IsTruthful : IsTruthful store laws reviewer []
unfolding laws
empty-IsTruthful k r m = absurd m

authenticate_token-IsReviewed_example :
    IsReviewed store laws reviewer
      (cache_key store (codes "abc") (codes "api" ∷ []))
      (authenticate_token store reviewer (codes "abc") [])
authenticate_token-IsReviewed_example =
    authenticate_token-IsReviewed store laws reviewer (codes "abc") [] empty-IsTruthful

abbrev audiences : List Text
audiences = codes "a" ∷ codes "bc" ∷ []

token_IsShort : IsShort (codes "abc")
unfolding codes
token_IsShort = omega arith

audiences_IsShort : All IsShort audiences
unfolding codes
audiences_IsShort = (omega arith, (omega arith, tt))

key_message_inj_example : (codes "abc" ≡ codes "abc") × (audiences ≡ audiences)
key_message_inj_example =
    key_message_inj (codes "abc") (codes "abc") audiences audiences token_IsShort token_IsShort
      (omega arith) (omega arith) audiences_IsShort audiences_IsShort refl
