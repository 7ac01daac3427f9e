-- ===== src/Prompts/Repeat.antt =====
-- A prompt that `get_prompt` of prompts/registry.py is asked for again.
use lumine_hedge_fund.Prelude.{
  ◌≡◌, refl, ap, ◌∙◌, inl, inr, eq_iff, arith, Option-cases, true, none, some, List, [], ◌∷◌,
  String, str_eq, ◌&&◌,
}
use lumine_hedge_fund.Prompts.{Library, Disk, PromptBundle, Registry, Result, ok, raised, get}
use lumine_hedge_fund.Prompts.Bundles.{cached, built, kept, found, get_prompt}
use lumine_hedge_fund.Prompts.Results.{cached-append_some, cached-append_none, raised-ok, ok-eq}
use lumine_hedge_fund.Prompts.Pinned.{get_all}

module _ (lib : Library) where
  kept-cached :
      (s v : String) (registry : Registry) (result : Result PromptBundle) (b : PromptBundle)
      → cached s v registry.bundle_cache ≡ none
      → (kept lib s v registry result).0 ≡ ok b
      → cached s v (kept lib s v registry result).1.bundle_cache ≡ some b
  unfolding kept
  kept-cached s v registry (raised e) b free h = absurd (raised-ok e b h)
  kept-cached s v registry (ok made) b free h =
      let same : (str_eq s s && str_eq v v) ≡ true = ground (arith, eq_iff s s, eq_iff v v) in
      cached-append_none s v s v registry.bundle_cache made free
      ∙ rw same (ap (λ (x : PromptBundle). some x) (ok-eq made b h))

  get_prompt-cached :
      (disk : Disk) (s v : String) (registry : Registry) (b : PromptBundle)
      → (get_prompt lib disk s v registry).0 ≡ ok b
      → cached s v (get_prompt lib disk s v registry).1.bundle_cache ≡ some b
  unfolding get_prompt found
  get_prompt-cached disk s v registry b h = elim (Option-cases (cached s v registry.bundle_cache)) [
    | inr (c, at) ↦
        let same : ok c ≡ ok b = rw at at h in
        rw at (at ∙ ap (λ (x : PromptBundle). some x) (ok-eq c b same))
    | inl free ↦
        rw free
          (kept-cached s v registry (built lib disk s v (get s v registry)) b free (rw free at h))
  ]

  kept-keeps :
      (s v t w : String) (registry : Registry) (result : Result PromptBundle) (b : PromptBundle)
      → cached s v registry.bundle_cache ≡ some b
      → cached s v (kept lib t w registry result).1.bundle_cache ≡ some b
  unfolding kept
  kept-keeps s v t w registry (raised e) b at = at
  kept-keeps s v t w registry (ok made) b at =
      cached-append_some s v registry.bundle_cache ((t, w, made) ∷ []) b at

  get_all-keeps :
      (s v : String) (calls : List (Disk × String × String)) (registry : Registry)
      (b : PromptBundle)
      → cached s v registry.bundle_cache ≡ some b
      → cached s v (get_all lib calls registry).bundle_cache ≡ some b
  unfolding get_all get_prompt found
  get_all-keeps s v [] registry b at = at
  get_all-keeps s v ((disk, t, w) ∷ calls) registry b at =
      get_all-keeps s v calls (get_prompt lib disk t w registry).1 b
        (elim (Option-cases (cached t w registry.bundle_cache)) [
          | inr (c, there) ↦ rw there at
          | inl free ↦
              rw free (kept-keeps s v t w registry (built lib disk t w (get t w registry)) b at)
        ])

  -- Once a call of `get_prompt` has returned a bundle: whatever is called on the registry after that,
  -- and however the files change, each later call for the same role and version returns that bundle.
  pub get_prompt-again :
      (disk later : Disk) (sub_role version : String) (registry : Registry) (bundle : PromptBundle)
      (calls : List (Disk × String × String))
      → (get_prompt lib disk sub_role version registry).0 ≡ ok bundle
      → (get_prompt lib later sub_role version
          (get_all lib calls (get_prompt lib disk sub_role version registry).1)).0
        ≡ ok bundle
  unfolding get_prompt found
  get_prompt-again disk later s v registry b calls h =
      let after = (get_prompt lib disk s v registry).1 in
      let at = get_all-keeps s v calls after b (get_prompt-cached disk s v registry b h) in
      rw at refl
