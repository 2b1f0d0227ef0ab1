-- ===== src/Transcript/Delta.antt =====
-- Where the delta behind a stored cursor starts.
use mathlib.Core.List.{append_assoc}
use skillmeter_claude_code_m.Prelude.{
  ℕ, suc, ◌+◌, ◌≡◌, ◌≤◌, inl, inr, refl, ap, ◌∙◌, true, false, Option, none, some, List, [], ◌∷◌,
  ◌++◌, String, arith, eq_iff, length, drop, All, Option-cases, if◌then◌else◌,
}
use skillmeter_claude_code_m.Transcript.{
  Line, non_empty, last_content_uuid, find_uuid, Cursor, compute_delta, has_uuid,
}

-- `u` is the last usable uuid of `objs`: it stands between lines, and no line behind it has one.
pub record EndsWith (objs : List Line) (u : String) : Type 0 where
  pub before : List Line
  pub anchor : Line
  pub after : List Line
  pub split : objs ≡ before ++ anchor ∷ after
  pub has : non_empty anchor.uuid ≡ some u
  pub rest : All (λ o. non_empty o.uuid ≡ none) after

last_content_uuid-none :
    (objs : List Line) → last_content_uuid objs ≡ none → All (λ o. non_empty o.uuid ≡ none) objs
unfolding last_content_uuid
last_content_uuid-none [] h = tt
last_content_uuid-none (o ∷ objs) h = elim (Option-cases (last_content_uuid objs)) [
  | inl e ↦ (ground (arith, e), last_content_uuid-none objs e)
  | inr (u, e) ↦ cc (e, h)
]

EndsWith-cons : {objs : List Line} {u : String} (o : Line) → EndsWith objs u → EndsWith (o ∷ objs) u
EndsWith-cons o w = record {
  before = o ∷ w.before;
  anchor = w.anchor;
  after = w.after;
  split = ap (λ l. o ∷ l) w.split;
  has = w.has;
  rest = w.rest;
}

last_content_uuid-EndsWith :
    (objs : List Line) (u : String) → last_content_uuid objs ≡ some u → EndsWith objs u
unfolding last_content_uuid
last_content_uuid-EndsWith [] u h = cc
last_content_uuid-EndsWith (o ∷ objs) u h = elim (Option-cases (last_content_uuid objs)) [
  | inl e ↦ record {
    before = [];
    anchor = o;
    after = objs;
    split = refl;
    has = ground (arith, e);
    rest = last_content_uuid-none objs e;
  }
  | inr (v, e) ↦ EndsWith-cons o (last_content_uuid-EndsWith objs u (ground (arith, e)))
]

-- How many lines have the uuid `u`.
unfoldable pub occurrences : String → List Line → ℕ
occurrences u [] = 0
occurrences u (o ∷ objs) =
    if has_uuid o.uuid u then suc (occurrences u objs) else occurrences u objs

occurrences-append :
    (u : String) (xs ys : List Line)
    → occurrences u (xs ++ ys) ≡ occurrences u xs + occurrences u ys
unfolding occurrences
occurrences-append u [] ys = omega arith
occurrences-append u (x ∷ xs) ys = ground (arith, occurrences-append u xs ys)

has_uuid_of_non_empty :
    (v : Option String) (u : String) → non_empty v ≡ some u → has_uuid v u ≡ true
unfolding non_empty
has_uuid_of_non_empty none u h = cc
has_uuid_of_non_empty (some s) u h = ground (arith, eq_iff s "", eq_iff s u)

find_uuid-append :
    (u : String) (before rest : List Line) (o : Line)
    → occurrences u before ≡ 0
    → has_uuid o.uuid u ≡ true
    → find_uuid (before ++ o ∷ rest) u ≡ some (length before)
unfolding occurrences find_uuid
find_uuid-append u [] rest o h e = rw e
find_uuid-append u (b ∷ before) rest o h e = ground (arith, e, find_uuid-append u before rest o)

drop-length-append :
    (before rest : List Line) (o : Line) → drop (length before + 1) (before ++ o ∷ rest) ≡ rest
drop-length-append [] rest o = refl
drop-length-append (b ∷ before) rest o =
    ap (λ n. drop n (b ∷ (before ++ o ∷ rest))) add_one ∙ drop-length-append before rest o
  where
    add_one : suc (length before) + 1 ≡ suc (length before + 1)
    add_one = omega arith

non_empty_of_non_empty :
    (v : Option String) (u : String) → non_empty v ≡ some u → non_empty (some u) ≡ some u
unfolding non_empty
non_empty_of_non_empty none u h = cc
non_empty_of_non_empty (some s) u h = ground (arith, eq_iff s "", eq_iff u "")

EndsWith-append :
    (objs more : List Line) (u : String) (w : EndsWith objs u)
    → objs ++ more ≡ w.before ++ w.anchor ∷ (w.after ++ more)
EndsWith-append objs more u w =
    ap (λ l. l ++ more) w.split ∙ append_assoc w.before (w.anchor ∷ w.after) more

none_before_anchor :
    (objs : List Line) (u : String) (w : EndsWith objs u)
    → occurrences u objs ≤ 1
    → occurrences u w.before ≡ 0
none_before_anchor objs u w once =
    let here : occurrences u (w.anchor ∷ w.after) ≡ suc (occurrences u w.after) =
      unfold occurrences in rw (has_uuid_of_non_empty w.anchor.uuid u w.has) in
    omega (arith, occurrences-append u w.before (w.anchor ∷ w.after), ap (occurrences u) w.split)

found_anchor :
    (objs more : List Line) (u : String) (w : EndsWith objs u)
    → occurrences u objs ≤ 1
    → find_uuid (objs ++ more) u ≡ some (length w.before)
found_anchor objs more u w once = rw (EndsWith-append objs more u w) (
    find_uuid-append u w.before (w.after ++ more) w.anchor (none_before_anchor objs u w once)
      (has_uuid_of_non_empty w.anchor.uuid u w.has))

-- When the last usable uuid of the planned lines occurs once among them, the delta of the next
-- plan, over the same lines with more behind them, is no reset and holds the lines behind the last
-- content line and the new ones, whatever else the stored cursor says.
pub resume_after_last_content :
    (objs more : List Line) (u : String) (cursor : Cursor)
    → last_content_uuid objs ≡ some u
    → occurrences u objs ≤ 1
    → cursor.last_uuid ≡ some u
    → (w : EndsWith objs u) × ((compute_delta (objs ++ more) (some cursor)).reset ≡ false)
      × (drop (compute_delta (objs ++ more) (some cursor)).start_index (objs ++ more)
          ≡ w.after ++ more)
unfolding compute_delta
resume_after_last_content objs more u cursor h once e =
    let w = last_content_uuid-EndsWith objs u h in
    let start : compute_delta (objs ++ more) (some cursor)
        ≡ record { start_index = length w.before + 1; reset = false } =
      ground
        (arith, non_empty_of_non_empty w.anchor.uuid u w.has, found_anchor objs more u w once) in
    (
      w,
      ap (λ d. d.reset) start,
      ap (λ d. drop d.start_index (objs ++ more)) start
          ∙ ap (drop (length w.before + 1)) (EndsWith-append objs more u w)
          ∙ drop-length-append w.before (w.after ++ more) w.anchor,
    )
