-- ===== src/Policy/Keys.antt =====
-- `normalizeOrg` and `normalizeRepoKey` of telemetry-store.js. A canonical key
-- `github.com/owner/name` is a record of its owner and its name, and `none` stands for "".
use Prim.Native.Char.{Char, code}
use Prim.Native.String.{[], ◌∷◌}
use skillmeter_claude_code_m.Prelude.{
  ℕ, ◌≡◌, ◌↔◌, Bool, true, ◌&&◌, ◌||◌, not, Option, none, some, String, List, arith, eq_iff, str_eq,
  leb, ◌==◌, if◌then◌else◌,
}
use skillmeter_claude_code_m.Prelude.Assoc.{Eq}
use skillmeter_claude_code_m.Host.{Host}

pub record RepoKey : Type 0 where
  pub owner : String
  pub name : String

abbrev pub key_eq : RepoKey → RepoKey → Bool
key_eq a b = str_eq a.owner b.owner && str_eq a.name b.name

pub key_eq_iff : (a b : RepoKey) → (key_eq a b ≡ true) ↔ (a ≡ b)
key_eq_iff a b = ground (arith, eq_iff a.owner b.owner, eq_iff a.name b.name)

instance abbrev pub repo_key_eq : Eq RepoKey
repo_key_eq = record { beq = key_eq; beq_iff = key_eq_iff }

abbrev push_front : Char → List String → List String
push_front c List.[] = List.◌∷◌ (c ∷ []) List.[]
push_front c (List.◌∷◌ s parts) = List.◌∷◌ (c ∷ s) parts

-- `s.split("/")`
unfoldable pub split_slash : String → List String
split_slash [] = List.◌∷◌ "" List.[]
split_slash (c ∷ s) =
    let parts = split_slash s in if code c == b'/' then List.◌∷◌ "" parts else push_front c parts

-- `[a-z0-9_.-]`
abbrev pub is_key_char : ℕ → Bool
is_key_char c =
    leb b'a' c && leb c b'z' || leb b'0' c && leb c b'9' || c == b'_' || c == b'.' || c == b'-'

unfoldable pub key_chars : String → Bool
key_chars [] = true
key_chars (c ∷ s) = is_key_char (code c) && key_chars s

abbrev pub is_part : String → Bool
is_part s = not (str_eq s "") && key_chars s

-- `s.replace(/\.git$/, "")`
unfoldable pub strip_git : String → String
strip_git [] = []
strip_git (c ∷ s) = if str_eq (c ∷ s) ".git" then [] else c ∷ strip_git s

abbrev key_of : String → String → Option RepoKey
key_of owner name =
    if is_part owner && is_part name
    then some (record { owner = owner; name = strip_git name })
    else none

-- The match of the pattern, on the parts between the slashes.
abbrev match_parts : List String → Option RepoKey
match_parts (List.◌∷◌ a (List.◌∷◌ b List.[])) = key_of a b
match_parts (List.◌∷◌ h (List.◌∷◌ a (List.◌∷◌ b List.[]))) =
    if str_eq h "github.com" then key_of a b else none
match_parts _ = none

module _ ⦃h : Host⦄ where
  unfoldable pub normalize_org : String → String
  normalize_org org = h.to_lower_case (h.trim org)

  unfoldable pub normalize_repo_key : String → Option RepoKey
  unfolding split_slash key_chars strip_git
  normalize_repo_key key = match_parts (split_slash (h.to_lower_case (h.trim key)))
