-- ===== src/Prompts/Entries.antt =====
-- The items of registry.yaml that prompts/registry.py looks up.
use mathlib.Core.Path.{subst}
use lumine_hedge_fund.Prelude.{
  ◌≡◌, refl, sym, ap, ◌∙◌, ◌⊎◌, inl, inr, eq_iff, Bool-cases, Bool, true, false, ◌&&◌, Option, none,
  some, List, [], ◌∷◌, String, str_eq, if◌then◌else◌, Dict, lookup, insert, lookup-insert,
}
use lumine_hedge_fund.Prompts.{Entry, PromptRef, ok, or_versions}
use lumine_hedge_fund.Prompts.Loading.{required, or_default, ref_of, with_ref, collected}
use lumine_hedge_fund.Prompts.Results.{raised-ok, some-eq, ok-eq, bind-ok}

abbrev pub is_text : String → Option String → Bool
is_text s none = false
is_text s (some t) = str_eq t s

abbrev pub or_here : Option Entry → Entry → Bool → Option Entry
or_here (some later) entry here = some later
or_here none entry here = if here then some entry else none

-- The last item with the role and the version.
abbrev pub listed : String → String → List Entry → Option Entry
listed sub_role version [] = none
listed sub_role version (entry ∷ entries) =
    or_here (listed sub_role version entries) entry
      (is_text sub_role entry.sub_role && is_text version entry.version)

-- A reference has what its item says, with the defaults for what it leaves out.
pub record IsRefOf (entry : Entry) (ref : PromptRef) : Type 0 where
  pub of_sub_role : entry.sub_role ≡ some ref.sub_role
  pub of_version : entry.version ≡ some ref.version
  pub of_prompt_ref : entry.prompt_ref ≡ some ref.prompt_ref
  pub of_expected_hash : entry.expected_hash ≡ some ref.expected_hash
  pub of_tier : ref.model_tier_hint ≡ or_default "cost-efficient" entry.model_tier_hint
  pub of_variables : ref.variables ≡ or_default [] entry.variables

required-ok : (key : String) (o : Option String) (s : String) → required key o ≡ ok s → o ≡ some s
unfolding required
required-ok key none s h = absurd (raised-ok _ s h)
required-ok key (some t) s h = ap (λ (x : String). some x) (ok-eq t s h)

ref_of-IsRefOf : (entry : Entry) (ref : PromptRef) → ref_of entry ≡ ok ref → IsRefOf entry ref
unfolding ref_of
ref_of-IsRefOf entry ref h =
    let (a, ea, h1) = bind-ok (required "sub_role" entry.sub_role) _ ref h in
    let (b, eb, h2) = bind-ok (required "version" entry.version) _ ref h1 in
    let (c, ec, h3) = bind-ok (required "prompt_ref" entry.prompt_ref) _ ref h2 in
    let (d, ed, h4) = bind-ok (required "expected_hash" entry.expected_hash) _ ref h3 in
    let same = ok-eq _ ref h4 in
    record {
      of_sub_role = required-ok _ _ a ea ∙ ap (λ (r : PromptRef). some r.sub_role) same;
      of_version = required-ok _ _ b eb ∙ ap (λ (r : PromptRef). some r.version) same;
      of_prompt_ref = required-ok _ _ c ec ∙ ap (λ (r : PromptRef). some r.prompt_ref) same;
      of_expected_hash = required-ok _ _ d ed ∙ ap (λ (r : PromptRef). some r.expected_hash) same;
      of_tier = ap (λ (r : PromptRef). r.model_tier_hint) (sym same);
      of_variables = ap (λ (r : PromptRef). r.variables) (sym same);
    }

abbrev pub at : String → String → Dict (Dict PromptRef) → Option PromptRef
at s v prompts = lookup v (or_versions (lookup s prompts))

at-with_ref :
    (s v : String) (ref : PromptRef) (prompts : Dict (Dict PromptRef))
    → at s v (with_ref ref prompts)
      ≡ (if str_eq ref.sub_role s && str_eq ref.version v then some ref else at s v prompts)
unfolding with_ref or_versions
at-with_ref s v ref prompts =
    let versions = or_versions (lookup ref.sub_role prompts) in
    elim (Bool-cases (str_eq ref.sub_role s)) [
      | inr e ↦ rw (lookup-insert ref.sub_role s (insert ref.version ref versions) prompts, e) refl
      | inl e ↦
          let role = (eq_iff ref.sub_role s).0 e in
          rw (lookup-insert ref.sub_role s (insert ref.version ref versions) prompts, e)
            (lookup-insert ref.version v ref versions
              ∙ ap
                  (λ (r : String).
                    if str_eq ref.version v
                    then some ref
                    else lookup v (or_versions (lookup r prompts)))
                  role)
    ]

here-is_ref :
    (s v : String) (entry : Entry) (made : PromptRef)
    → IsRefOf entry made
    → (is_text s entry.sub_role && is_text v entry.version)
      ≡ (str_eq made.sub_role s && str_eq made.version v)
here-is_ref s v entry made is_ref =
    ap (λ (o : Option String). is_text s o && is_text v entry.version) is_ref.of_sub_role
    ∙ ap (λ (o : Option String). str_eq made.sub_role s && is_text v o) is_ref.of_version

or_here-true : (entry : Entry) (b : Bool) → b ≡ true → or_here none entry b ≡ some entry
or_here-true entry b h = rw h refl

or_here-false : (entry : Entry) (b : Bool) → b ≡ false → or_here none entry b ≡ none
or_here-false entry b h = rw h refl

-- The item, or one of those before it.
here_or_before :
    (s v : String) (entry : Entry) (made ref : PromptRef) (prompts : Dict (Dict PromptRef))
    → IsRefOf entry made
    → at s v (with_ref made prompts) ≡ some ref
    → let here = is_text s entry.sub_role && is_text v entry.version in
      ((or_here none entry here ≡ some entry) × IsRefOf entry ref)
      ⊎ ((or_here none entry here ≡ none) × (at s v prompts ≡ some ref))
here_or_before s v entry made ref prompts is_ref found =
    let held = sym (at-with_ref s v made prompts) ∙ found in
    let same = here-is_ref s v entry made is_ref in
    let here = is_text s entry.sub_role && is_text v entry.version in
    elim (Bool-cases (str_eq made.sub_role s && str_eq made.version v)) [
      | inl met ↦
          let this : some made ≡ some ref = rw met at held in
          inl (
            or_here-true entry here (same ∙ met),
            subst (IsRefOf entry) (some-eq made ref this) is_ref,
          )
      | inr unmet ↦ inr (or_here-false entry here (same ∙ unmet), rw unmet at held)
    ]

-- A reference of the collected prompts is that of the last item of its role and version, or was there.
pub collected-listed :
    (s v : String) (entries : List Entry) (prompts final : Dict (Dict PromptRef)) (ref : PromptRef)
    → collected entries prompts ≡ ok final
    → at s v final ≡ some ref
    → ((entry : Entry) × (listed s v entries ≡ some entry) × IsRefOf entry ref)
      ⊎ ((listed s v entries ≡ none) × (at s v prompts ≡ some ref))
unfolding collected
collected-listed s v [] prompts final ref h e = inr (refl, ap (at s v) (ok-eq prompts final h) ∙ e)
collected-listed s v (entry ∷ entries) prompts final ref h e =
    let (made, of, rest) = bind-ok (ref_of entry) _ final h in
    let here = is_text s entry.sub_role && is_text v entry.version in
    elim (collected-listed s v entries (with_ref made prompts) final ref rest e) [
      | inl (later, l, r) ↦ inl (later, ap (λ (o : Option Entry). or_here o entry here) l, r)
      | inr (l, found) ↦
          let last = ap (λ (o : Option Entry). or_here o entry here) l in
          elim (here_or_before s v entry made ref prompts (ref_of-IsRefOf entry made of) found) [
            | inl (k, r) ↦ inl (entry, last ∙ k, r)
            | inr (k, before) ↦ inr (last ∙ k, before)
          ]
    ]
