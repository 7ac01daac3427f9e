-- ===== src/Prompts/Pinned.antt =====
-- Sequences of `get_prompt` in prompts/registry.py, while the disk changes between the calls.
use mathlib.Core.Path.{subst}
use lumine_hedge_fund.Prelude.{
  ◌≡◌, refl, sym, ap, ◌∙◌, inl, inr, arith, eq_iff, Bool-cases, Option-cases, true, ◌&&◌, none,
  some, List, [], ◌∷◌, String, str_eq, Dict,
}
use lumine_hedge_fund.Prompts.{
  Bytes, Library, Disk, PromptRef, PromptPins, PromptBundle, Registry, Result, ok, raised, get,
  versions_of,
}
use lumine_hedge_fund.Prompts.Results.{
  raised-ok, some-eq, ok-eq, bind-ok, cached-append_some, cached-append_none,
}
use lumine_hedge_fund.Prompts.Loading.{load_registry, loaded, collected, check_prompts}
use lumine_hedge_fund.Prompts.Bundles.{
  cached, body_of, schema_of, checked_bundle, bundle_of, built, kept, found, get_prompt,
}

abbrev pub pins_of : String → String → PromptRef → String → PromptPins
pins_of sub_role version ref prompt_hash = record {
  sub_role = sub_role;
  version = version;
  prompt_ref = ref.prompt_ref;
  prompt_hash = prompt_hash;
}

module _ (lib : Library) where
  -- The bundle is that of a file with the hash that the registry expects of this prompt.
  abbrev pub IsPinned : Registry → String → String → PromptBundle → Type 0
  IsPinned registry sub_role version bundle =
      (ref : PromptRef) × (get sub_role version registry ≡ some ref)
      × (bundle.pins ≡ pins_of sub_role version ref ref.expected_hash)
      × (raw_bytes : Bytes) × (lib.sha256_hex raw_bytes ≡ ref.expected_hash)
      × (content : String) × (lib.decode raw_bytes ≡ some content)
      × (bundle.text ≡ body_of lib content)

  IsOf : String → String → PromptRef → PromptBundle → Bytes → String → Type 0
  IsOf sub_role version ref bundle raw_bytes content =
      (bundle.pins ≡ pins_of sub_role version ref ref.expected_hash)
      × (lib.sha256_hex raw_bytes ≡ ref.expected_hash)
      × (bundle.text ≡ body_of lib content)

  checked_bundle-IsOf :
      (disk : Disk) (s v : String) (ref : PromptRef) (raw_bytes : Bytes) (content : String)
      (b : PromptBundle)
      → checked_bundle lib disk s v ref raw_bytes (some content) ≡ ok b
      → IsOf s v ref b raw_bytes content
  unfolding checked_bundle IsOf
  checked_bundle-IsOf disk s v ref raw_bytes content b h =
      elim (Bool-cases (str_eq (lib.sha256_hex raw_bytes) ref.expected_hash)) [
        | inr e ↦ absurd (raised-ok _ b (rw e at h))
        | inl e ↦
            let hash : lib.sha256_hex raw_bytes ≡ ref.expected_hash =
              (eq_iff (lib.sha256_hex raw_bytes) ref.expected_hash).0 e in
            let (schema, _, made) =
              bind-ok (schema_of lib disk ref.output_schema_ref) _ b (rw e at h) in
            let same = sym (ok-eq _ b made) in
            (
              ap (λ (x : PromptBundle). x.pins) same ∙ ap (pins_of s v ref) hash,
              hash,
              ap (λ (x : PromptBundle). x.text) same,
            )
      ]

  built-IsPinned :
      (disk : Disk) (s v : String) (registry : Registry) (b : PromptBundle)
      → built lib disk s v (get s v registry) ≡ ok b
      → IsPinned registry s v b
  unfolding built bundle_of checked_bundle IsOf
  built-IsPinned disk s v registry b h = elim (Option-cases (get s v registry)) [
    | inl n ↦ absurd (raised-ok _ b (rw n at h))
    | inr (ref, g) ↦ elim (Option-cases (disk.files ref.prompt_ref)) [
      | inl n ↦ absurd (raised-ok _ b (rw (g, n) at h))
      | inr (raw_bytes, f) ↦ elim (Option-cases (lib.decode raw_bytes)) [
        | inl n ↦ absurd (raised-ok _ b (rw (g, f, n) at h))
        | inr (content, d) ↦
            let (pins, hash, text) =
              checked_bundle-IsOf disk s v ref raw_bytes content b (rw (g, f, d) at h) in
            (ref, g, pins, raw_bytes, hash, content, d, text)
      ]
    ]
  ]

  -- Every bundle in the cache is pinned.
  abbrev pub IsSound : Registry → Type 0
  IsSound registry =
      (s v : String) (b : PromptBundle)
      → cached s v registry.bundle_cache ≡ some b
      → IsPinned registry s v b

  IsPinned-same :
      (registry : Registry) (s t v w : String) (b c : PromptBundle)
      → s ≡ t
      → v ≡ w
      → b ≡ c
      → IsPinned registry s v b
      → IsPinned registry t w c
  IsPinned-same registry s t v w b c e f g p =
      subst (λ (x : String). IsPinned registry x w c) e
        (subst (λ (y : String). IsPinned registry s y c) f
          (subst (λ (z : PromptBundle). IsPinned registry s v z) g p))

  kept-IsSound :
      (s v : String) (registry : Registry) (result : Result PromptBundle)
      → cached s v registry.bundle_cache ≡ none
      → ((b : PromptBundle) → result ≡ ok b → IsPinned registry s v b)
      → IsSound registry
      → IsSound (kept lib s v registry result).1
  unfolding kept versions_of get
  kept-IsSound s v registry (raised e) n pinned sound t w b h = sound t w b h
  kept-IsSound s v registry (ok made) n pinned sound t w b h =
      elim (Option-cases (cached t w registry.bundle_cache)) [
        | inr (c, at) ↦
            let more = cached-append_some t w registry.bundle_cache ((s, v, made) ∷ []) c at in
            sound t w b (at ∙ sym more ∙ h)
        | inl free ↦
            let e = sym (cached-append_none t w s v registry.bundle_cache made free) ∙ h in
            elim (Bool-cases (str_eq s t && str_eq v w)) [
              | inr unmet ↦ let absent : none ≡ some b = rw unmet at e in absurd cc
              | inl met ↦
                  let here : some made ≡ some b = rw met at e in
                  let same_role : str_eq s t ≡ true = ground arith in
                  let same_version : str_eq v w ≡ true = ground arith in
                  IsPinned-same registry s t v w made b ((eq_iff s t).0 same_role)
                    ((eq_iff v w).0 same_version) (some-eq made b here) (pinned made refl)
            ]
      ]

  -- The registry that calls of `get_prompt` leave, each with its disk.
  unfoldable pub get_all : List (Disk × String × String) → Registry → Registry
  get_all [] registry = registry
  get_all ((disk, sub_role, version) ∷ calls) registry =
      get_all calls (get_prompt lib disk sub_role version registry).1

  pub kept-ok :
      (s v : String) (registry : Registry) (result : Result PromptBundle) (b : PromptBundle)
      → (kept lib s v registry result).0 ≡ ok b
      → result ≡ ok b
  unfolding kept
  kept-ok s v registry (raised e) b h = h
  kept-ok s v registry (ok made) b h = h

  get_prompt-IsSound :
      (disk : Disk) (s v : String) (registry : Registry)
      → IsSound registry
      → IsSound (get_prompt lib disk s v registry).1
  unfolding get_prompt found
  get_prompt-IsSound disk s v registry sound =
      elim (Option-cases (cached s v registry.bundle_cache)) [
        | inr (b, at) ↦ rw at sound
        | inl free ↦ rw free (
            kept-IsSound s v registry (built lib disk s v (get s v registry)) free
              (built-IsPinned disk s v registry) sound)
      ]

  get_all-IsSound :
      (calls : List (Disk × String × String)) (registry : Registry)
      → IsSound registry
      → IsSound (get_all calls registry)
  unfolding get_all
  get_all-IsSound [] registry sound = sound
  get_all-IsSound ((disk, s, v) ∷ calls) registry sound =
      get_all-IsSound calls (get_prompt lib disk s v registry).1
        (get_prompt-IsSound disk s v registry sound)

  loaded-IsSound :
      (source : Disk) (registry : Registry)
      → load_registry lib source ≡ ok registry
      → IsSound registry
  unfolding load_registry loaded cached
  loaded-IsSound source registry h s v b at = elim (Option-cases source.registry) [
    | inl n ↦ absurd (raised-ok _ registry (rw n at h))
    | inr (entries, e) ↦
        let (prompts, _, checks) = bind-ok (collected entries []) _ registry (rw e at h) in
        let (_, _, made) = bind-ok (check_prompts lib source prompts) _ registry checks in
        let empty = ap (λ (r : Registry). cached s v r.bundle_cache) (ok-eq _ registry made) in
        let nothing : none ≡ some b = empty ∙ at in absurd cc
  ]

  kept-prompts :
      (s v : String) (registry : Registry) (result : Result PromptBundle)
      → (kept lib s v registry result).1.prompts ≡ registry.prompts
  unfolding kept
  kept-prompts s v registry (raised e) = refl
  kept-prompts s v registry (ok made) = refl

  get_prompt-prompts :
      (disk : Disk) (s v : String) (registry : Registry)
      → (get_prompt lib disk s v registry).1.prompts ≡ registry.prompts
  unfolding get_prompt found
  get_prompt-prompts disk s v registry = elim (Option-cases (cached s v registry.bundle_cache)) [
    | inr (b, at) ↦ rw at refl
    | inl free ↦ rw free (kept-prompts s v registry (built lib disk s v (get s v registry)))
  ]

  get_all-prompts :
      (calls : List (Disk × String × String)) (registry : Registry)
      → (get_all calls registry).prompts ≡ registry.prompts
  unfolding get_all
  get_all-prompts [] registry = refl
  get_all-prompts ((disk, s, v) ∷ calls) registry =
      get_all-prompts calls (get_prompt lib disk s v registry).1
      ∙ get_prompt-prompts disk s v registry

  get_prompt-ok :
      (disk : Disk) (s v : String) (registry : Registry) (b : PromptBundle)
      → IsSound registry
      → (get_prompt lib disk s v registry).0 ≡ ok b
      → IsPinned registry s v b
  unfolding get_prompt found
  get_prompt-ok disk s v registry b sound h =
      elim (Option-cases (cached s v registry.bundle_cache)) [
        | inr (c, at) ↦
            let same : ok c ≡ ok b = rw at at h in
            sound s v b (at ∙ ap (λ (x : PromptBundle). some x) (ok-eq c b same))
        | inl free ↦
            built-IsPinned disk s v registry b
              (kept-ok s v registry (built lib disk s v (get s v registry)) b (rw free at h))
      ]

  -- What a loaded registry gives after any calls is pinned.
  pub get_prompt-IsPinned :
      (source disk : Disk) (registry : Registry) (calls : List (Disk × String × String))
      (sub_role version : String) (bundle : PromptBundle)
      → load_registry lib source ≡ ok registry
      → (get_prompt lib disk sub_role version (get_all calls registry)).0 ≡ ok bundle
      → IsPinned registry sub_role version bundle
  unfolding get versions_of
  get_prompt-IsPinned source disk registry calls s v b h r =
      subst (λ (x : Dict (Dict PromptRef)). IsPinned (record registry { prompts = x }) s v b)
        (get_all-prompts calls registry)
        (get_prompt-ok disk s v (get_all calls registry) b
          (get_all-IsSound calls registry (loaded-IsSound source registry h)) r)
