-- ===== src/Examples.antt =====
-- A runtime, a session and a policy file that the tests of several components share.
use Prim.Native.String.{◌∷◌ as ◌∷ˢ◌, count}
use Prim.Native.String.count.{cons}
use skillmeter_claude_code_m.Prelude.{
  ℕ, zero, suc, String, true, false, none, some, [], ◌∷◌, str_eq, if◌then◌else◌, ◌≡◌, refl, sym, ap,
  ◌∙◌,
}
use skillmeter_claude_code_m.Host.{Host, Payload}
use skillmeter_claude_code_m.Policy.Keys.{RepoKey}
use skillmeter_claude_code_m.Policy.Store.{
  Policy, PolicyFile, user_setting, enabled_setting, written,
}
use skillmeter_claude_code_m.Session.{Account}

abbrev license_payload : Payload
license_payload = record {
  exp = some 100;
  orgs = some (some "acme" ∷ []);
  aud = [];
  login = some "acme";
}

abbrev renewed_payload : Payload
renewed_payload = record license_payload { exp = some 100000 }

-- Texts stand for themselves; there are two licenses.
instance abbrev pub plain_host : Host
plain_host = record {
  trim = λ s. s;
  to_lower_case = λ s. s;
  decode_payload = λ t.
      if str_eq t "jwt1"
      then some license_payload
      else if str_eq t "jwt2"
      then some renewed_payload
      else none;
  decimal = λ n. "0";
}

abbrev pub signed_in_account : Account
signed_in_account = record {
  session = record {
    license_jwt = some "jwt1";
    refresh_token = some "rt1";
    auth_generation = some "g1";
    signed_out = false;
  };
  device_id = some "d1";
}

abbrev pub tool : RepoKey
tool = record { owner = "acme"; name = "tool" }

abbrev pub policy : Policy
policy = record {
  revision = 3;
  global = enabled_setting;
  organizations = ("acme", user_setting true (some 1) 5) ∷ [];
  repositories = (tool, user_setting true none 5) ∷ [];
}

abbrev pub policy_file : PolicyFile
policy_file = written policy

-- A text for each number.
unfoldable pub letters : ℕ → String
letters zero = ""
letters (suc n) = "a" ∷ˢ letters n

count-letters : (n : ℕ) → count (letters n) ≡ n
unfolding letters
count-letters zero = refl
count-letters (suc n) = cons _ (letters n) ∙ ap suc (count-letters n)

pub letters-injective : (m n : ℕ) → letters m ≡ letters n → m ≡ n
letters-injective m n e = sym (count-letters m) ∙ ap count e ∙ count-letters n

-- The same runtime, whose numbers are written as texts that differ.
abbrev pub counting_host : Host
counting_host = record plain_host { decimal = letters }
