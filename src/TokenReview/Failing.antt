-- ===== src/TokenReview/Failing.antt =====
-- What a review of pkg/proxy/tokenreview/tokenreview.go accepts.
use kube_oidc_proxy.Base.{
  ℕ, Text, Bool, true, false, not, ◌&&◌, Option, none, some, List, ◌≡◌, refl, sym, ap, subst, ◌⊎◌,
  inl, inr, Member, is_empty, leb, if◌then◌else◌, some_inj,
}
use kube_oidc_proxy.Base.Result.{Result, ok, err, ok_inj}
use kube_oidc_proxy.Sar.{ApiError, failed}
use kube_oidc_proxy.TokenReview.{
  Status, Response, Answer, Store, Reviewer, answer_of, cache_key, review_live, keep, keep_answer,
  review_missed, after_lookup, review_cached, authenticate_token,
}

-- What is relied on of the LRU store, seen through the entries that it may still serve: a read and a
-- review add none, and a hit is an entry.
pub record IsStore {World : Type 0} (store : Store World) : Type 0 where
  pub entries : World → List (Text × Answer)
  pub get_hit :
      (k : Text) (w : World) (a : Answer) → (store.get k w).0 ≡ some a → Member (k, a) (entries w)
  pub get_entries :
      (k : Text) (w : World) (e : Text × Answer)
      → Member e (entries (store.get k w).1)
      → Member e (entries w)
  pub add_entries :
      (k : Text) (a : Answer) (ttl : ℕ) (w : World) (e : Text × Answer)
      → Member e (entries (store.add k a ttl w))
      → ((k, a) ≡ e) ⊎ Member e (entries w)
  pub create_entries :
      (token : Text) (audiences : List Text) (w : World) (e : Text × Answer)
      → Member e (entries (store.create token audiences w).1)
      → Member e (entries w)

module _ {World : Type 0} (store : Store World) (laws : IsStore store) (reviewer : Reviewer) where
  -- The API server authenticated a token with this key, without a status error, as this response.
  pub record IsBacked (key : Text) (response : Response) : Type 0 where
    pub token : Text
    pub world : World
    pub status : Status
    pub same_key : cache_key store token reviewer.audiences ≡ key
    pub replied : (store.create token reviewer.audiences world).0 ≡ ok status
    pub no_error : is_empty status.error ≡ true
    pub authenticated : status.authenticated ≡ true
    pub user : response.user ≡ status.user

  -- Every acceptance that the store may serve is backed.
  abbrev pub IsTruthful : World → Type 0
  IsTruthful w =
      (key : Text) (response : Response)
      → Member (key, some response) (laws.entries w)
      → IsBacked key response

  -- What a review leaves for this key.
  pub record IsReviewed (key : Text) (r : Result ApiError Answer × World) : Type 0 where
    pub truthful : IsTruthful r.1
    pub backed : (response : Response) → r.0 ≡ ok (some response) → IsBacked key response

  err_ok : {e : ApiError} {a : Answer} → ◌≡◌ {A = Result ApiError Answer} (err e) (ok a) → ⊥
  err_ok z = cc

  no_answer : {r : Response} → ◌≡◌ {A = Answer} none (some r) → ⊥
  no_answer z = cc

  answer_of-IsBacked :
      (token : Text) (w : World) (reply : Result ApiError Status) (response : Response)
      → (store.create token reviewer.audiences w).0 ≡ reply
      → answer_of reply ≡ ok (some response)
      → IsBacked (cache_key store token reviewer.audiences) response
  unfolding answer_of
  answer_of-IsBacked token w (err e) response replied z = absurd (err_ok z)
  answer_of-IsBacked token w (ok status) response replied z =
      tested (is_empty status.error) status.authenticated refl refl z
    where
      tested :
          (blank good : Bool)
          → is_empty status.error ≡ blank
          → status.authenticated ≡ good
          → ◌≡◌ {A = Result ApiError Answer}
              (if not blank
                then err (failed status.error)
                else ok (
                    if not good
                    then none
                    else some (record { audiences = status.audiences; user = status.user })))
              (ok (some response))
          → IsBacked (cache_key store token reviewer.audiences) response
      tested false good p q z = absurd (err_ok z)
      tested true false p q z = absurd (no_answer (ok_inj z))
      tested true true p q z = record {
        token = token;
        world = w;
        status = status;
        same_key = refl;
        replied = replied;
        no_error = p;
        authenticated = q;
        user = ap (λ r. r.user) (sym (some_inj (ok_inj z)));
      }

  review_live-IsReviewed :
      (token : Text) (w : World)
      → IsTruthful w
      → IsReviewed (cache_key store token reviewer.audiences) (review_live store reviewer token w)
  unfolding review_live
  review_live-IsReviewed token w h = record {
    truthful = λ k r m. h k r (laws.create_entries token reviewer.audiences w (k, some r) m);
    backed = λ r z. answer_of-IsBacked token w _ r refl z;
  }

  add-IsTruthful :
      (key : Text) (a : Answer) (ttl : ℕ) (w : World)
      → ((response : Response) → a ≡ some response → IsBacked key response)
      → IsTruthful w
      → IsTruthful (store.add key a ttl w)
  add-IsTruthful key a ttl w backed h k r m = from (laws.add_entries key a ttl w (k, some r) m)
    where
      from :
          (◌≡◌ {A = Text × Answer} (key, a) (k, some r) ⊎ Member (k, some r) (laws.entries w))
          → IsBacked k r
      from (inl e) = subst (λ j. IsBacked j r) (ap (λ x. x.0) e) (backed r (ap (λ x. x.1) e))
      from (inr old) = h k r old

  either_way :
      (t : Bool) (v w : World) → IsTruthful v → IsTruthful w → IsTruthful (if t then v else w)
  either_way true v w h k = h
  either_way false v w h k = k

  keep-IsTruthful :
      (key : Text) (a : Answer) (w : World)
      → ((response : Response) → a ≡ some response → IsBacked key response)
      → IsTruthful w
      → IsTruthful (keep store reviewer key a w)
  unfolding keep
  keep-IsTruthful key none w backed h =
      either_way _ _ _ (add-IsTruthful key none reviewer.failure_ttl w backed h) h
  keep-IsTruthful key (some r) w backed h =
      either_way _ _ _ (add-IsTruthful key (some r) reviewer.success_ttl w backed h) h

  keep_answer-IsReviewed :
      (key : Text) (a : Result ApiError Answer) (w : World)
      → IsReviewed key (a, w)
      → IsReviewed key (keep_answer store reviewer key a w)
  unfolding keep_answer
  keep_answer-IsReviewed key (err e) w h = h
  keep_answer-IsReviewed key (ok a) w h = record {
    truthful = keep-IsTruthful key a w (λ r e. h.backed r (ap (λ x. ok x) e)) h.truthful;
    backed = h.backed;
  }

  after_lookup-IsReviewed :
      (token : Text) (hit : Option Answer) (w : World)
      → IsTruthful w
      → ((response : Response)
          → hit ≡ some (some response)
          → IsBacked (cache_key store token reviewer.audiences) response)
      → IsReviewed
          (cache_key store token reviewer.audiences)
          (after_lookup store reviewer (cache_key store token reviewer.audiences) token hit w)
  unfolding after_lookup review_missed
  after_lookup-IsReviewed token (some a) w h served = record {
    truthful = h;
    backed = λ r z. served r (ap some (ok_inj z));
  }
  after_lookup-IsReviewed token none w h served =
      keep_answer-IsReviewed _ _ _ (review_live-IsReviewed token w h)

  -- If every acceptance in the store is backed, then a token is accepted only where the API server
  -- authenticated that token, or one with the same cache key, for the same audiences and without a
  -- status error, and the user is the one that it reported; and the store's acceptances stay backed.
  -- A failed call, a status error and a rejection accept nothing.
  pub authenticate_token-IsReviewed :
      (token : Text) (w : World)
      → IsTruthful w
      → IsReviewed
          (cache_key store token reviewer.audiences)
          (authenticate_token store reviewer token w)
  unfolding authenticate_token review_cached
  authenticate_token-IsReviewed token w h =
      choose (leb reviewer.success_ttl 0 && leb reviewer.failure_ttl 0)
    where
      choose :
          (t : Bool)
          → IsReviewed (cache_key store token reviewer.audiences) (
              if t
              then review_live store reviewer token w
              else review_cached store reviewer token w)
      choose true = review_live-IsReviewed token w h
      choose false =
          after_lookup-IsReviewed token _ _ (λ k r m. h k r (laws.get_entries _ w (k, some r) m))
            (λ r e. h _ r (laws.get_hit _ w (some r) e))
