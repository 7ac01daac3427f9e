-- ===== src/Prompts/Source.antt =====
-- What `get_prompt` of prompts/registry.py returns, back to the items of registry.yaml.
use lumine_hedge_fund.Prelude.{
  ◌≡◌, sym, ap, ◌∙◌, inl, inr, Option-cases, none, some, List, [], String, lookup,
}
use lumine_hedge_fund.Prompts.{
  Bytes, Library, Disk, Entry, PromptRef, PromptPins, PromptBundle, Registry, ok, get, versions_of,
}
use lumine_hedge_fund.Prompts.Results.{raised-ok, ok-eq, bind-ok}
use lumine_hedge_fund.Prompts.Loading.{load_registry, loaded, collected, check_prompts}
use lumine_hedge_fund.Prompts.Bundles.{body_of, get_prompt}
use lumine_hedge_fund.Prompts.Entries.{listed, at, IsRefOf, collected-listed}
use lumine_hedge_fund.Prompts.Pinned.{get_all, get_prompt-IsPinned}

module _ (lib : Library) where
  -- The bundle has the file and the hash of the item, and the text of a file with that hash.
  abbrev pub IsOfEntry : Entry → String → String → PromptBundle → Type 0
  IsOfEntry entry sub_role version bundle =
      (bundle.pins.sub_role ≡ sub_role)
      × (bundle.pins.version ≡ version)
      × (entry.prompt_ref ≡ some bundle.pins.prompt_ref)
      × (entry.expected_hash ≡ some bundle.pins.prompt_hash)
      × (raw_bytes : Bytes) × (lib.sha256_hex raw_bytes ≡ bundle.pins.prompt_hash)
      × (content : String) × (lib.decode raw_bytes ≡ some content)
      × (bundle.text ≡ body_of lib content)

  -- The bundle is that of the last item of registry.yaml with the role and the version.
  abbrev pub IsListedIn : Disk → String → String → PromptBundle → Type 0
  IsListedIn source sub_role version bundle =
      (entries : List Entry) × (source.registry ≡ some entries)
      × (entry : Entry) × (listed sub_role version entries ≡ some entry)
      × IsOfEntry entry sub_role version bundle

  loaded-listed :
      (source : Disk) (registry : Registry) (s v : String) (ref : PromptRef)
      → load_registry lib source ≡ ok registry
      → get s v registry ≡ some ref
      → (entries : List Entry) × (source.registry ≡ some entries)
        × (entry : Entry) × (listed s v entries ≡ some entry)
        × IsRefOf entry ref
  unfolding load_registry loaded get versions_of lookup
  loaded-listed source registry s v ref h g = elim (Option-cases source.registry) [
    | inl n ↦ absurd (raised-ok _ registry (rw n at h))
    | inr (entries, e) ↦
        let (prompts, all, checks) = bind-ok (collected entries []) _ registry (rw e at h) in
        let (_, _, made) = bind-ok (check_prompts lib source prompts) _ registry checks in
        let there = ap (λ (r : Registry). at s v r.prompts) (ok-eq _ registry made) ∙ g in
        elim (collected-listed s v entries [] prompts ref all there) [
          | inl (entry, l, r) ↦ (entries, e, entry, l, r)
          | inr (l, before) ↦ let nothing : none ≡ some ref = before in absurd cc
        ]
  ]

  -- A registry that was loaded, and any calls of `get_prompt` on it while the files change in any way:
  -- a bundle that the next call returns has the role and the version that were asked for, the prompt
  -- file and the hash of the last item of registry.yaml, as it was when it was loaded, with that role
  -- and version, and the text, without its front matter, of a file with that hash.
  pub get_prompt-IsListedIn :
      (source disk : Disk) (registry : Registry) (calls : List (Disk × String × String))
      (sub_role version : String) (bundle : PromptBundle)
      → load_registry lib source ≡ ok registry
      → (get_prompt lib disk sub_role version (get_all lib calls registry)).0 ≡ ok bundle
      → IsListedIn source sub_role version bundle
  get_prompt-IsListedIn source disk registry calls s v b h r =
      let (ref, g, pins, raw_bytes, hash, content, d, text) =
        get_prompt-IsPinned lib source disk registry calls s v b h r in
      let (entries, e, entry, l, is_ref) = loaded-listed source registry s v ref h g in
      (
        entries,
        e,
        entry,
        l,
        (
          ap (λ (p : PromptPins). p.sub_role) pins,
          ap (λ (p : PromptPins). p.version) pins,
          is_ref.of_prompt_ref ∙ ap (λ (p : PromptPins). some p.prompt_ref) (sym pins),
          is_ref.of_expected_hash ∙ ap (λ (p : PromptPins). some p.prompt_hash) (sym pins),
          raw_bytes,
          hash ∙ ap (λ (p : PromptPins). p.prompt_hash) (sym pins),
          content,
          d,
          text,
        ),
      )
