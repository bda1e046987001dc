-- ===== src/Startup.antt =====
-- The start of the process: cmd/app/run.go. The hash, the file system, the TLS transport, the OIDC
-- authenticator and the servers are parameters.
pub mod Names
pub mod Sequence
pub mod Counts
pub mod Acts
pub mod Order
use kube_oidc_proxy.Base.{
  ℕ, Text, codes, Bool, true, false, not, ◌&&◌, ◌||◌, Option, none, some, List, [], ◌∷◌, ◌++◌, map,
  take, is_empty, if◌then◌else◌, ◌==◌, has_prefix, lookup, insert,
}
use kube_oidc_proxy.Limiter.{is_less}
use kube_oidc_proxy.Options.{Options, OidcOptions}
use kube_oidc_proxy.Probe.{Issuer, join}
use kube_oidc_proxy.Probe.Names.{issuer_name}

-- The flag whose prefix is refused, with its value.
unfoldable pub refused_prefix : List (Text × Text) → Option (Text × Text)
refused_prefix [] = none
refused_prefix ((flag, value) ∷ prefixes) =
    let rest = refused_prefix prefixes in
    if has_prefix value (codes "system:") then some (flag, value) else rest

unfoldable pub check_reserved_identity_prefixes : Options → Option (Text × Text)
check_reserved_identity_prefixes o =
    if not (is_empty o.config_file)
    then none
    else refused_prefix (
        (codes "--oidc-username-prefix", o.oidc.username_prefix)
        ∷ (codes "--oidc-groups-prefix", o.oidc.groups_prefix)
        ∷ [])

unfoldable pub is_secret_flag : Text → Bool
is_secret_flag name = name == codes "token" || name == codes "password"

-- The walk of configHash over the flags, each a name and its value.
unfoldable pub flag_pairs : List (Text × Text) → List Text
flag_pairs [] = []
flag_pairs ((name, value) ∷ flags) =
    let rest = flag_pairs flags in
    if is_secret_flag name then rest else (name ++ codes "=" ++ value) ∷ rest

-- sort.Strings, by insertion.
unfoldable pub place_text : Text → List Text → List Text
place_text s [] = s ∷ []
place_text s (t ∷ ts) = let rest = place_text s ts in if is_less t s then t ∷ rest else s ∷ t ∷ ts

unfoldable pub sort_strings : List Text → List Text
sort_strings [] = []
sort_strings (s ∷ ss) = place_text s (sort_strings ss)

-- `digest` is the SHA-256 in hexadecimal.
unfoldable pub config_hash : (Text → Text) → List (Text × Text) → Text
config_hash digest flags = take 16 (digest (join (10 ∷ []) (sort_strings (flag_pairs flags))))

-- A name that was seen is reported with the URL that had it first.
unfoldable pub duplicate_or :
    Text → Text → Option Text → Option (Text × Text × Text) → Option (Text × Text × Text)
duplicate_or name url none rest = rest
duplicate_or name url (some first) rest = some (name, first, url)

module _ (parse_host : Text → Option Text) where
  unfoldable pub issuer_names : List Text → List Text
  issuer_names issuer_urls = map (λ url. issuer_name parse_host url) issuer_urls

  -- The loop of duplicateIssuerName, after some of the issuers.
  unfoldable pub duplicate_after : List (Text × Text) → List Text → Option (Text × Text × Text)
  duplicate_after seen [] = none
  duplicate_after seen (url ∷ urls) =
      let name = issuer_name parse_host url in
      let rest = duplicate_after (insert name url seen) urls in
      duplicate_or name url (lookup name seen) rest

  unfoldable pub duplicate_issuer_name : List Text → Option (Text × Text × Text)
  duplicate_issuer_name issuer_urls = duplicate_after [] issuer_urls

  -- The probes of the issuers; `fake_jwt` is token.FakeJWT where it succeeds.
  unfoldable pub issuer_probes : (Text → Text) → List Text → List Issuer
  issuer_probes fake_jwt issuer_urls =
      map (λ url. record { issuer_url = url; fake_jwt = fake_jwt url }) issuer_urls

-- The steps of drain, with what each of them does to the world.
pub record Teardown (World E : Type 0) : Type 0 where
  pub stop_probe : World → World
  pub wait_probe : World → Option E × World
  pub run_hooks : World → Option E × World
  -- None where the metrics listener is off.
  pub stop_metrics : Option (World → Option E × World)
  pub wait_metrics : Option (World → Option E × World)

-- errors.Join
unfoldable pub joined_errors {ℓ} : {E : Type ℓ} → List (Option E) → List E
joined_errors [] = []
joined_errors (none ∷ es) = joined_errors es
joined_errors (some e ∷ es) = e ∷ joined_errors es

module _ {World E : Type 0} where
  unfoldable pub optional_step : Option (World → Option E × World) → World → Option E × World
  optional_step none w = (none, w)
  optional_step (some step) w = step w

  unfoldable pub drain : Teardown World E → World → List E × World
  drain t w0 =
      let (probe_err, w1) = t.wait_probe (t.stop_probe w0) in
      let (hooks_err, w2) = t.run_hooks w1 in
      let (stop_err, w3) = optional_step t.stop_metrics w2 in
      let (wait_err, w4) = optional_step t.wait_metrics w3 in
      (joined_errors (probe_err ∷ stop_err ∷ wait_err ∷ hooks_err ∷ []), w4)
