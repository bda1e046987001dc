-- ===== src/Sar/Trust.antt =====
-- What a decision of pkg/proxy/subjectaccessreview rests on: the answers of the API server.
use kube_oidc_proxy.Base.{ℕ, Text, Bool, some, List, ◌≡◌, ◌⊎◌, inl, inr, Member}
use kube_oidc_proxy.Base.Result.{Result, ok}
use kube_oidc_proxy.Sar.{Spec, ApiError}
use kube_oidc_proxy.Sar.Live.{join, Env, State}

-- What is relied on of the store, of singleflight and of the API server, seen through the answers
-- that the server gave to this process and the entries that the store may still serve.
pub record IsEnv {World : Type 0} (env : Env World) : Type 0 where
  pub answers : World → List (Spec × Bool)
  pub entries : World → List (Text × Bool)
  -- The store serves what was added, under the key it was added with, and no read adds.
  pub get_hit :
      (k : Text) (w : World) (b : Bool) → (env.cache_get k w).0 ≡ some b → Member (k, b) (entries w)
  pub get_entries :
      (k : Text) (w : World) (e : Text × Bool)
      → Member e (entries (env.cache_get k w).1)
      → Member e (entries w)
  pub add_entries :
      (k : Text) (b : Bool) (ttl : ℕ) (w : World) (e : Text × Bool)
      → Member e (entries (env.cache_add k b ttl w))
      → ((k, b) ≡ e) ⊎ Member e (entries w)
  pub create_entries :
      (spec : Spec) (w : World) (e : Text × Bool)
      → Member e (entries (env.create spec w).1)
      → Member e (entries w)
  -- An answer, once given, stays given.
  pub create_ok :
      (spec : Spec) (w : World) (b : Bool)
      → (env.create spec w).0 ≡ ok b
      → Member (spec, b) (answers (env.create spec w).1)
  pub get_answers :
      (k : Text) (w : World) (a : Spec × Bool)
      → Member a (answers w)
      → Member a (answers (env.cache_get k w).1)
  pub add_answers :
      (k : Text) (b : Bool) (ttl : ℕ) (w : World) (a : Spec × Bool)
      → Member a (answers w)
      → Member a (answers (env.cache_add k b ttl w))
  pub create_answers :
      (spec : Spec) (w : World) (a : Spec × Bool)
      → Member a (answers w)
      → Member a (answers (env.create spec w).1)
  pub flight_answers :
      (k : Text) (w : World) (a : Spec × Bool)
      → Member a (answers w)
      → Member a (answers (env.flight k w).1)
  -- While a caller waits, the flight of the same key that it joined gets its answer, and the store
  -- gains no entry from the wait itself.
  pub flight_join :
      (k : Text) (w : World) (b : Bool)
      → (env.flight k w).0 ≡ join (ok b)
      → (spec : Spec) × Member (spec, b) (answers (env.flight k w).1) × (env.marshal spec ≡ some k)
  pub flight_entries :
      (k : Text) (w : World) (e : Text × Bool)
      → Member e (entries (env.flight k w).1)
      → Member e (entries w)

module _ {World : Type 0} (env : Env World) (laws : IsEnv env) where
  open laws use {answers, entries}

  -- The server answered `b` to a review that serialises to this key.
  abbrev pub Answered : Text → Bool → World → Type 0
  Answered k b w = (spec : Spec) × Member (spec, b) (answers w) × (env.marshal spec ≡ some k)

  -- The server answered `b` to this review, or to one that serialises alike.
  abbrev pub Decided : Spec → Bool → World → Type 0
  Decided spec b w =
      Member (spec, b) (answers w) ⊎ ((k : Text) × (env.marshal spec ≡ some k) × Answered k b w)

  -- Every entry that the store may serve is an answer.
  abbrev pub IsTruthful : World → Type 0
  IsTruthful w = (k : Text) (b : Bool) → Member (k, b) (entries w) → Answered k b w

  pub record Advance (w w' : World) : Type 0 where
    pub truthful : IsTruthful w → IsTruthful w'
    pub keeps : (a : Spec × Bool) → Member a (answers w) → Member a (answers w')

  pub Advance-refl : (w : World) → Advance w w
  Advance-refl w = record { truthful = λ h. h; keeps = λ a m. m }

  pub Advance-trans : {u v w : World} → Advance u v → Advance v w → Advance u w
  Advance-trans p q = record {
    truthful = λ h. q.truthful (p.truthful h);
    keeps = λ a m. q.keeps a (p.keeps a m);
  }

  pub Decided-Advance :
      {w w' : World} (spec : Spec) (b : Bool) → Advance w w' → Decided spec b w → Decided spec b w'
  Decided-Advance spec b p (inl m) = inl (p.keeps _ m)
  Decided-Advance spec b p (inr (k, e, (other, m, e'))) = inr (k, e, (other, p.keeps _ m, e'))

  -- A move that keeps the answers and adds no entry.
  pub quiet :
      {w w' : World}
      → ((a : Spec × Bool) → Member a (answers w) → Member a (answers w'))
      → ((e : Text × Bool) → Member e (entries w') → Member e (entries w))
      → Advance w w'
  quiet keeps fewer = record {
    truthful = λ h k b m.
        let (spec, answered, same) = h k b (fewer (k, b) m) in (spec, keeps _ answered, same);
    keeps = keeps;
  }

  abbrev pub Outcome : Type 0
  Outcome = Result ApiError Bool × State World

  -- The outcome of asking `spec` from the world `w`.
  pub record Settles (spec : Spec) (w : World) (r : Outcome) : Type 0 where
    pub advance : Advance w r.1.world
    pub decided : IsTruthful w → (b : Bool) → r.0 ≡ ok b → Decided spec b r.1.world

  pub Settles-after :
      {spec : Spec} {w w' : World} {r : Outcome}
      → Advance w w'
      → Settles spec w' r
      → Settles spec w r
  Settles-after p q = record {
    advance = Advance-trans p q.advance;
    decided = λ h. q.decided (p.truthful h);
  }
