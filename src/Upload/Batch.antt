-- ===== src/Upload/Batch.antt =====
-- A drain's batch, of lib/transfer.js: `retryUnauthorizedOnce` and `tally`. The batch's upload and
-- the forced refresh are the caller's, on a state `W` of the client's files; an array of results
-- that the second upload returns is a function of the position.
use skillmeter_claude_code_m.Prelude.{
  ℕ, zero, suc, ◌≤◌, Bool, true, false, ◌||◌, if◌then◌else◌, if_intro, All, Option, none, some,
  opt_eq, List, [], ◌∷◌, ◌++◌, length, String, ◌≡◌, refl, arith, get_elem?,
}
use skillmeter_claude_code_m.Jwt.{or_null}

-- What the drains read of a transfer's result.
pub record TransferResult : Type 0 where
  pub ok : Bool
  pub unauthorized : Bool
  pub error : Option String

pub data Settled : Type 0 where
  fulfilled : TransferResult → Settled
  rejected : String → Settled

abbrev pub is_unauthorized : Settled → Bool
is_unauthorized (fulfilled r) = r.unauthorized
is_unauthorized (rejected why) = false

abbrev pub is_ok : Settled → Bool
is_ok (fulfilled r) = r.ok
is_ok (rejected why) = false

abbrev error_of : Settled → List String
error_of (fulfilled r) = if r.ok then [] else elim (or_null r.error) [ none ↦ [] | some e ↦ e ∷ [] ]
error_of (rejected why) = why ∷ []

pub record Tally : Type 0 where
  pub ok : ℕ
  pub errors : List String

unfoldable pub tally : List Settled → Tally
tally [] = record { ok = 0; errors = [] }
tally (s ∷ l) =
    let rest = tally l in
    record { ok = if is_ok s then suc rest.ok else rest.ok; errors = error_of s ++ rest.errors }

-- The i-th of the unauthorized results is replaced by the i-th of the retried ones.
unfoldable pub merge_results : List Settled → (ℕ → Settled) → ℕ → List Settled
merge_results [] retried i = []
merge_results (s ∷ results) retried i =
    let kept = s ∷ merge_results results retried i in
    let replaced = retried i ∷ merge_results results retried (suc i) in
    if is_unauthorized s then replaced else kept

module _ {ℓ} {F : Type ℓ} where
  -- The files whose result is unauthorized, in their order.
  unfoldable pub rejected_files : List F → List Settled → List F
  rejected_files [] results = []
  rejected_files (f ∷ files) [] = []
  rejected_files (f ∷ files) (s ∷ results) =
      let rest = rejected_files files results in if is_unauthorized s then f ∷ rest else rest

  abbrev is_none_left : List F → Bool
  is_none_left [] = true
  is_none_left (f ∷ files) = false

module _ {ℓ ℓ'} {F : Type ℓ} {W : Type ℓ'} where
  unfoldable pub retry_unauthorized_once :
      (List F → W → (ℕ → Settled) × W)
      → (W → Option String × W)
      → (W → Option String)
      → List F
      → List Settled
      → W
      → List Settled × W
  unfolding rejected_files merge_results
  retry_unauthorized_once upload refresh license files results w =
      let again = rejected_files files results in
      let refreshed = refresh w in
      let after = or_null refreshed.0 in
      let resent = upload again refreshed.1 in
      if is_none_left again
      then (results, w)
      else if opt_eq after none || opt_eq after (or_null (license w))
      then (results, refreshed.1)
      else (merge_results results resent.0 0, resent.1)

-- An unauthorized result does not count as delivered.
abbrev pub IsApart : Settled → Type 0
IsApart s = is_unauthorized s ≡ true → is_ok s ≡ false

merge_results-ok :
    (results : List Settled) (retried : ℕ → Settled) (i : ℕ)
    → All IsApart results
    → (tally results).ok ≤ (tally (merge_results results retried i)).ok
unfolding tally merge_results
merge_results-ok [] retried i apart = ground arith
merge_results-ok (s ∷ results) retried i apart = ground (
  arith,
  apart.0,
  merge_results-ok results retried i apart.1,
  merge_results-ok results retried (suc i) apart.1,
)

merge_results-length :
    (results : List Settled) (retried : ℕ → Settled) (i : ℕ)
    → length (merge_results results retried i) ≡ length results
unfolding merge_results
merge_results-length [] retried i = refl
merge_results-length (s ∷ results) retried i =
    ground
      (arith, merge_results-length results retried i, merge_results-length results retried (suc i))

merge_results-keeps :
    (results : List Settled) (retried : ℕ → Settled) (i n : ℕ) (s : Settled)
    → get_elem? results n ≡ some s
    → is_unauthorized s ≡ false
    → get_elem? (merge_results results retried i) n ≡ some s
unfolding merge_results
merge_results-keeps [] retried i n s e u = absurd (ground (arith, e))
merge_results-keeps (x ∷ results) retried i zero s e u = ground (arith, e, u)
merge_results-keeps (x ∷ results) retried i (suc n) s e u = ground (
  arith,
  merge_results-keeps results retried i n s e u,
  merge_results-keeps results retried (suc i) n s e u,
)

-- What the one more try of the rejected files leaves of the first results.
pub record IsRetryOf (results merged : List Settled) : Type 0 where
  pub same_length : length merged ≡ length results
  pub keeps :
      (n : ℕ) (s : Settled)
      → get_elem? results n ≡ some s
      → is_unauthorized s ≡ false
      → get_elem? merged n ≡ some s
  pub no_fewer : (tally results).ok ≤ (tally merged).ok

-- The one more try after a refreshed license changes no result but the unauthorized ones, keeps the
-- order and number of results, and never lowers the count of delivered files, whatever the second
-- upload and the refresh do, if no unauthorized result of the first counts as
-- delivered.
pub retry_unauthorized_once-IsRetryOf {ℓ ℓ'} :
    {F : Type ℓ} {W : Type ℓ'} (upload : List F → W → (ℕ → Settled) × W)
    (refresh : W → Option String × W) (license : W → Option String) (files : List F)
    (results : List Settled) (w : W)
    → All IsApart results
    → IsRetryOf results (retry_unauthorized_once upload refresh license files results w).0
unfolding retry_unauthorized_once
retry_unauthorized_once-IsRetryOf {W} upload refresh license files results w apart =
    let P : List Settled × W → Type 0 = λ r. IsRetryOf results r.0 in
    let same : IsRetryOf results results = record {
      same_length = refl;
      keeps = λ n s e u. e;
      no_fewer = ground arith;
    } in
    let again = rejected_files files results in
    let refreshed = refresh w in
    let after = or_null refreshed.0 in
    let resent = upload again refreshed.1 in
    if_intro P (is_none_left again) _ _ same (
      if_intro P (opt_eq after none || opt_eq after (or_null (license w))) _ _ same (record {
        same_length = merge_results-length results resent.0 0;
        keeps = merge_results-keeps results resent.0 0;
        no_fewer = merge_results-ok results resent.0 0 apart;
      }))
