-- ===== src/Jwt.antt =====
-- shared/lib/jwt.js: the claims of a license, without signature verification.
use Prim.Native.Char.{Char, code}
use Prim.Native.String.{[] as []ˢ, ◌∷◌ as ◌∷ˢ◌}
use skillmeter_claude_code_m.Prelude.{
  ◌==◌, ◌&&◌, ◌||◌, true, false, ℕ, ◌+◌, ◌/◌, Bool, Option, none, some, List, [], ◌∷◌, String,
  str_eq, ltb, any, if◌then◌else◌,
}
use skillmeter_claude_code_m.Host.{Host, Payload, units}

-- `v || null`, and the test that a text is not empty.
abbrev pub or_null : Option String → Option String
or_null none = none
or_null (some s) = if str_eq s "" then none else some s

abbrev expired_payload : Option Payload → ℕ → ℕ → Bool → Bool
expired_payload none now_ms skew missing = missing
expired_payload (some p) now_ms skew missing = elim p.exp [
  | none ↦ missing
  | some exp ↦ ltb exp (now_ms / 1000 + skew)
]

abbrev texts : List (Option String) → List String
texts [] = []
texts (none ∷ l) = texts l
texts (some s ∷ l) = s ∷ texts l

-- `[...new Set(l)]`, after the values of `seen`
unfoldable pub distinct : List String → List String → List String
distinct seen [] = []
distinct seen (s ∷ l) =
    let again = distinct seen l in
    let fresh = s ∷ distinct (s ∷ seen) l in if any (λ t. str_eq t s) seen then again else fresh

module _ ⦃h : Host⦄ where
  unfoldable pub is_jwt_expired : Option String → ℕ → ℕ → Bool → Bool
  is_jwt_expired token now_ms skew missing = elim (or_null token) [
    | none ↦ missing
    | some t ↦ expired_payload (h.decode_payload t) now_ms skew missing
  ]

  abbrev lowered : List String → List String
  lowered [] = []
  lowered (s ∷ l) =
      let org = h.to_lower_case (h.trim s) in if str_eq org "" then lowered l else org ∷ lowered l

  abbrev claimed : Option (List (Option String)) → List String
  claimed none = []
  claimed (some orgs) = distinct [] (lowered (texts orgs))

  abbrev payload_orgs : Option Payload → List String
  payload_orgs none = []
  payload_orgs (some p) = claimed p.orgs

  unfoldable pub get_license_orgs : Option String → List String
  unfolding distinct
  get_license_orgs token = elim (or_null token) [
    | none ↦ []
    | some t ↦ payload_orgs (h.decode_payload t)
  ]

  abbrev tenant_login : Option Payload → Option String
  tenant_login none = none
  tenant_login (some p) = p.login

  abbrev trimmed : Option String → String
  trimmed none = ""
  trimmed (some s) = h.trim s

  unfoldable pub get_license_tenant_slug : Option String → String
  get_license_tenant_slug token = elim (or_null token) [
    | none ↦ ""
    | some t ↦ trimmed (tenant_login (h.decode_payload t))
  ]

  -- The code units of `https://`, the letters without regard to case.
  abbrev https_letters : List ℕ
  https_letters = 104 ∷ 116 ∷ 116 ∷ 112 ∷ 115 ∷ 58 ∷ 47 ∷ 47 ∷ []

  abbrev same_letter : ℕ → ℕ → Bool
  same_letter l c = l == c || (ltb 96 l && l == c + 32)

  unfoldable begins_like : List ℕ → List ℕ → Bool
  begins_like [] cs = true
  begins_like (l ∷ ls) [] = false
  begins_like (l ∷ ls) (c ∷ cs) = same_letter l c && begins_like ls cs

  unfoldable pub is_https : String → Bool
  unfolding begins_like
  is_https s = begins_like https_letters (units s)

  abbrev without_slash : Char → String → String
  without_slash c s = if code c == 47 && str_eq s "" then "" else c ∷ˢ s

  -- `replace(/\/+$/, "")`
  unfoldable strip_slashes : String → String
  strip_slashes []ˢ = ""
  strip_slashes (c ∷ˢ s) = without_slash c (strip_slashes s)

  unfoldable first_https : List String → Option String
  first_https [] = none
  first_https (s ∷ l) =
      let later = first_https l in
      if is_https (h.trim s) then some (strip_slashes (h.trim s)) else later

  abbrev endpoint_of : Option Payload → Option String
  endpoint_of none = none
  endpoint_of (some p) = first_https (texts p.aud)

  unfoldable pub get_endpoint_from_token_allow_expired : Option String → Option String
  unfolding first_https strip_slashes
  get_endpoint_from_token_allow_expired token = elim (or_null token) [
    | none ↦ none
    | some t ↦ endpoint_of (h.decode_payload t)
  ]
