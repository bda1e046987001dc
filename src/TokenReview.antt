-- ===== src/TokenReview.antt =====
-- Token reviews and their cache: pkg/proxy/tokenreview/tokenreview.go. The API server, the LRU store
-- and the keyed hash are third-party.
pub mod Failing
pub mod Key
use Prim.Native.Nat.{zero, ◌/◌, ◌%◌}
use kube_oidc_proxy.Base.{
  ℕ, suc, Text, codes, Bool, true, false, not, ◌&&◌, Option, none, some, List, [], ◌∷◌, ◌++◌, leb,
  ltb, length, is_empty, if◌then◌else◌,
}
use kube_oidc_proxy.Base.Result.{Result, ok, err}
use kube_oidc_proxy.Request.{UserInfo}
use kube_oidc_proxy.Sar.{ApiError, failed}

-- TokenReviewStatus
pub record Status : Type 0 where
  pub error : Text
  pub authenticated : Bool
  pub audiences : List Text
  pub user : UserInfo

-- authenticator.Response
pub record Response : Type 0 where
  pub audiences : List Text
  pub user : UserInfo

-- `(response, true)`, or `(nil, false)`
abbrev pub Answer : Type 0
Answer = Option Response

-- binary.BigEndian.PutUint64, for `k` bytes: higher bits are lost.
unfoldable pub put_uint : ℕ → ℕ → List ℕ
put_uint zero n = []
put_uint (suc k) n = put_uint k (n / 256) ++ n % 256 ∷ []

-- writeLengthPrefixed
unfoldable pub length_prefixed : Text → List ℕ
length_prefixed s = put_uint 8 (length s) ++ s

unfoldable pub length_prefixed_all : List Text → List ℕ
length_prefixed_all [] = []
length_prefixed_all (s ∷ ss) = length_prefixed s ++ length_prefixed_all ss

-- What cacheKey hashes.
unfoldable pub key_message : Text → List Text → List ℕ
key_message token audiences =
    length_prefixed token ++ (put_uint 8 (length audiences) ++ length_prefixed_all audiences)

pub record Store (World : Type 0) : Type 0 where
  -- the HMAC under the instance's key
  pub hash : List ℕ → Text
  pub get : Text → World → Option Answer × World
  pub add : Text → Answer → ℕ → World → World
  -- TokenReviews().Create
  pub create : Text → List Text → World → Result ApiError Status × World

unfoldable pub cache_key : {World : Type 0} → Store World → Text → List Text → Text
cache_key store token audiences = store.hash (key_message token audiences)

-- The TokenReview, and the TTLs of its cache; a TTL that is not positive is 0.
pub record Reviewer : Type 0 where
  pub audiences : List Text
  pub success_ttl : ℕ
  pub failure_ttl : ℕ

-- What follows the API server's reply: a status error is an error, and any answer that does not
-- authenticate is `none`.
unfoldable pub answer_of : Result ApiError Status → Result ApiError Answer
answer_of (err e) = err e
answer_of (ok status) =
    if not (is_empty status.error)
    then err (failed status.error)
    else ok (
        if not status.authenticated
        then none
        else some (record { audiences = status.audiences; user = status.user }))

module _ {World : Type 0} (store : Store World) (reviewer : Reviewer) where
  -- TokenReview.AuthenticateToken
  unfoldable pub review_live : Text → World → Result ApiError Answer × World
  review_live token w =
      let (reply, w') = store.create token reviewer.audiences w in (answer_of reply, w')

  unfoldable pub keep : Text → Answer → World → World
  keep key (some response) w =
      if ltb 0 reviewer.success_ttl then store.add key (some response) reviewer.success_ttl w else w
  keep key none w =
      if ltb 0 reviewer.failure_ttl then store.add key none reviewer.failure_ttl w else w

  unfoldable pub keep_answer :
      Text → Result ApiError Answer → World → Result ApiError Answer × World
  keep_answer key (err e) w = (err e, w)
  keep_answer key (ok answer) w = (ok answer, keep key answer w)

  unfoldable pub review_missed : Text → Text → World → Result ApiError Answer × World
  review_missed key token w = let (answer, w') = review_live token w in keep_answer key answer w'

  unfoldable pub after_lookup : Text → Text → Option Answer → World → Result ApiError Answer × World
  after_lookup key token (some answer) w = (ok answer, w)
  after_lookup key token none w = review_missed key token w

  unfoldable pub review_cached : Text → World → Result ApiError Answer × World
  review_cached token w =
      let key = cache_key store token reviewer.audiences in
      let (hit, w') = store.get key w in after_lookup key token hit w'

  -- NewCached: the reviewer as it is where neither TTL is positive.
  unfoldable pub authenticate_token : Text → World → Result ApiError Answer × World
  authenticate_token token w =
      if leb reviewer.success_ttl 0 && leb reviewer.failure_ttl 0
      then review_live token w
      else review_cached token w
