-- ===== src/Host.antt =====
-- What the modelled code takes from the JavaScript runtime: text functions, the decimal form of a number, and the reading of a
-- token's payload (base64 and JSON).
use Prim.Native.Char.{code}
use Prim.Native.String.{[], ◌∷◌}
use skillmeter_claude_code_m.Prelude.{ℕ, Option, List, String}

-- The claims that the clients read. An entry of `orgs` or `aud` that is no text is `none`; `orgs`
-- is `none` where the claim is no array, and a single `aud` is a list of one.
pub record Payload : Type 0 where
  pub exp : Option ℕ
  pub orgs : Option (List (Option String))
  pub aud : List (Option String)
  pub login : Option String

pub record Host : Type 0 where
  pub trim : String → String
  pub to_lower_case : String → String
  pub decode_payload : String → Option Payload
  pub decimal : ℕ → String

-- The UTF-16 code units of a text of the basic plane.
unfoldable pub units : String → List ℕ
units [] = List.[]
units (c ∷ s) = List.◌∷◌ (code c) (units s)
