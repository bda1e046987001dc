-- ===== src/Sanitize.antt =====
-- Bounding what reaches a log record: pkg/logging/sanitize.go. A text is the list of its code
-- points here, since the source works on runes.
pub mod Laws
use kube_oidc_proxy.Base.{
  ℕ, ◌-◌, Text, Bool, ◌&&◌, ◌||◌, List, [], ◌∷◌, length, take, map, leb, ltb, eqb, if◌then◌else◌,
}

abbrev pub max_error_message : ℕ
max_error_message = 512

abbrev pub max_request_id : ℕ
max_request_id = 64

abbrev pub max_groups : ℕ
max_groups = 32

abbrev pub max_identity : ℕ
max_identity = 256

-- unicode.IsControl: the controls below the blank and those from DEL to 159.
unfoldable pub is_control : ℕ → Bool
is_control r = leb r 31 || (leb 127 r && leb r 159)

unfoldable pub is_line_space : ℕ → Bool
is_line_space r = eqb r 10 || (eqb r 13 || eqb r 9)

-- strings.Map over the runes: the line spaces become a blank, other controls go.
unfoldable pub sanitize : Text → Text
sanitize [] = []
sanitize (r ∷ s) =
    let rest = sanitize s in
    if is_line_space r then b' ' ∷ rest else (if is_control r then rest else r ∷ rest)

-- A bound of zero is none.
unfoldable pub bound : Text → ℕ → Text
bound s max =
    let clean = sanitize s in
    if leb max 0 then clean else (if leb (length clean) max then clean else take max clean)

unfoldable pub sanitize_list : List Text → List Text
sanitize_list vs = map (λ v. bound v max_identity) vs

abbrev kept : ℕ → ℕ → ℕ
kept len max = if ltb 0 max && ltb max len then max else len

unfoldable pub bounded_list : List Text → ℕ → List Text × ℕ
bounded_list [] max = ([], 0)
bounded_list (v ∷ vs) max =
    let n = kept (length (v ∷ vs)) max in
    (map (λ x. bound x max_identity) (take n (v ∷ vs)), length (v ∷ vs) - n)
