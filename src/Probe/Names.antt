-- ===== src/Probe/Names.antt =====
-- The name of an issuer in the log stream and on its gauge: IssuerName of pkg/probe/probe.go. A text
-- is the list of its code points.
use kube_oidc_proxy.Base.{
  ℕ, Text, codes, Bool, ◌&&◌, ◌||◌, Option, none, some, [], ◌∷◌, leb, eqb, is_empty, if◌then◌else◌,
}
use kube_oidc_proxy.Sanitize.{bound, max_identity}

-- unicode.IsSpace
unfoldable pub is_white : ℕ → Bool
is_white r =
    (leb 9 r && leb r 13)
    || (eqb r 32
        || (eqb r 133
            || (eqb r 160
                || (eqb r 5760
                    || ((leb 8192 r && leb r 8202)
                        || (eqb r 8232
                            || (eqb r 8233 || (eqb r 8239 || (eqb r 8287 || eqb r 12288)))))))))

-- strings.TrimSpace, one end at a time.
unfoldable pub trim_start : Text → Text
trim_start [] = []
trim_start (r ∷ s) = let rest = trim_start s in if is_white r then rest else r ∷ s

unfoldable pub keep_rune : ℕ → Text → Text
keep_rune r [] = if is_white r then [] else r ∷ []
keep_rune r (q ∷ s) = r ∷ q ∷ s

unfoldable pub trim_end : Text → Text
trim_end [] = []
trim_end (r ∷ s) = keep_rune r (trim_end s)

unfoldable pub or_unknown : Text → Text
or_unknown [] = codes "unknown"
or_unknown (r ∷ s) = r ∷ s

-- The host that url.Parse found, none where it failed.
unfoldable pub name_of_host : Option Text → Text
name_of_host none = codes "unknown"
name_of_host (some host) =
    if is_empty host
    then codes "unknown"
    else or_unknown (trim_end (trim_start (bound host max_identity)))

unfoldable pub issuer_name : (Text → Option Text) → Text → Text
issuer_name parse_host issuer_url = name_of_host (parse_host issuer_url)
