-- ===== src/Prompts/Listed.antt =====
-- Prompts that the registry lists, on the disk that prompts/registry.py loaded it from.
use mathlib.Core.Path.{subst}
use lumine_hedge_fund.Prelude.{
  ◌≡◌, refl, ◌⊎◌, inl, inr, Bool-cases, Option-cases, Option, none, some, [], ◌∷◌, String, str_eq,
  Dict, lookup,
}
use lumine_hedge_fund.Prompts.{
  Library, Disk, PromptRef, PromptBundle, Registry, not_utf8, schema_not_json, Result, ok, raised,
  ◌>>=◌, or_versions, versions_of, get,
}
use lumine_hedge_fund.Prompts.Loading.{
  collected, check_schema, check_bytes, check_versions, check_prompts, loaded, load_registry,
}
use lumine_hedge_fund.Prompts.Bundles.{
  cached, parsed_schema, schema_of, checked_bundle, bundle_of, built, kept, found, get_prompt,
}
use lumine_hedge_fund.Prompts.Results.{raised-ok, bind-ok, ok-eq, some-eq}

module _ (lib : Library) (disk : Disk) where
  -- The file and the schema of a reference passed their checks.
  abbrev IsChecked : PromptRef → Type 0
  IsChecked ref = check_bytes lib disk ref (disk.files ref.prompt_ref) ≡ ok tt

  check_versions-IsChecked :
      (v : String) (ref : PromptRef) (versions : Dict PromptRef)
      → check_versions lib disk versions ≡ ok tt
      → lookup v versions ≡ some ref
      → IsChecked ref
  unfolding check_versions lookup
  check_versions-IsChecked v ref [] h at = absurd cc
  check_versions-IsChecked v ref ((w, r) ∷ versions) h at =
      let (_, head, rest) = bind-ok (check_bytes lib disk r (disk.files r.prompt_ref)) _ tt h in
      elim (Bool-cases (str_eq w v)) [
        | inl e ↦ subst IsChecked (some-eq r ref (rw e at at)) head
        | inr e ↦ check_versions-IsChecked v ref versions rest (rw e at at)
      ]

  check_prompts-IsChecked :
      (s v : String) (ref : PromptRef) (prompts : Dict (Dict PromptRef))
      → check_prompts lib disk prompts ≡ ok tt
      → lookup v (or_versions (lookup s prompts)) ≡ some ref
      → IsChecked ref
  unfolding check_prompts lookup or_versions
  check_prompts-IsChecked s v ref [] h at = absurd cc
  check_prompts-IsChecked s v ref ((role, versions) ∷ prompts) h at =
      let (_, head, rest) = bind-ok (check_versions lib disk versions) _ tt h in
      elim (Bool-cases (str_eq role s)) [
        | inl e ↦ check_versions-IsChecked v ref versions head (rw e at at)
        | inr e ↦ check_prompts-IsChecked s v ref prompts rest (rw e at at)
      ]

  -- A call that returns, or fails on the content of a file alone.
  abbrev pub IsReadable : Result PromptBundle → Type 0
  IsReadable result =
      ((bundle : PromptBundle) × (result ≡ ok bundle))
      ⊎ ((result ≡ raised not_utf8) ⊎ (result ≡ raised schema_not_json))

  schema_of-checked :
      (path : Option String)
      → check_schema lib disk path ≡ ok tt
      → ((schema : String) × (schema_of lib disk path ≡ ok schema))
        ⊎ (schema_of lib disk path ≡ raised schema_not_json)
  unfolding check_schema schema_of parsed_schema
  schema_of-checked none h = inl ("{}", refl)
  schema_of-checked (some path) h = elim (Bool-cases (str_eq path "")) [
    | inl e ↦ inl ("{}", rw e refl)
    | inr e ↦ elim (Option-cases (disk.files path)) [
      | inl n ↦ absurd (raised-ok _ tt (rw (e, n) at h))
      | inr (raw_bytes, f) ↦ elim (Option-cases (lib.load_json raw_bytes)) [
        | inl n ↦ inr (rw (e, f, parsed_schema, n) refl)
        | inr (schema, j) ↦ inl (schema, rw (e, f, parsed_schema, j) refl)
      ]
    ]
  ]

  bind-IsReadable :
      (r : Result String) (f : String → PromptBundle)
      → ((schema : String) × (r ≡ ok schema)) ⊎ (r ≡ raised schema_not_json)
      → IsReadable (r >>= λ schema. ok (f schema))
  unfolding ◌>>=◌
  bind-IsReadable r f (inl (schema, e)) = inl (f schema, rw e refl)
  bind-IsReadable r f (inr e) = inr (inr (rw e refl))

  built-IsReadable :
      (s v : String) (ref : PromptRef) → IsChecked ref → IsReadable (built lib disk s v (some ref))
  unfolding check_bytes built bundle_of checked_bundle ◌>>=◌
  built-IsReadable s v ref h = elim (Option-cases (disk.files ref.prompt_ref)) [
    | inl n ↦ absurd (raised-ok _ tt (rw n at h))
    | inr (raw_bytes, f) ↦ elim (Bool-cases (str_eq (lib.sha256_hex raw_bytes) ref.expected_hash)) [
      | inr e ↦ absurd (raised-ok _ tt (rw (f, e) at h))
      | inl e ↦ elim (Option-cases (lib.decode raw_bytes)) [
        | inl n ↦ inr (inl (rw (f, n) refl))
        | inr (content, d) ↦
            rw (f, d, checked_bundle, e)
              (bind-IsReadable (schema_of lib disk ref.output_schema_ref) _
                (schema_of-checked ref.output_schema_ref (rw (f, e) at h)))
      ]
    ]
  ]

  kept-IsReadable :
      (s v : String) (registry : Registry) (result : Result PromptBundle)
      → IsReadable result
      → IsReadable (kept lib s v registry result).0
  unfolding kept
  kept-IsReadable s v registry (raised e) r = r
  kept-IsReadable s v registry (ok b) r = r

  -- A registry that was loaded, and a prompt that it lists: on the same disk `get_prompt` returns a
  -- bundle, or fails because the prompt file is not UTF-8 or the schema file not JSON. It raises none of
  -- the errors for a prompt that is not found, a file that is missing or a hash that does not match.
  pub load_registry-IsReadable :
      (sub_role version : String) (ref : PromptRef) (registry : Registry)
      → load_registry lib disk ≡ ok registry
      → get sub_role version registry ≡ some ref
      → IsReadable (get_prompt lib disk sub_role version registry).0
  unfolding load_registry loaded get versions_of get_prompt found cached
  load_registry-IsReadable s v ref registry h listed = elim (Option-cases disk.registry) [
    | inl n ↦ absurd (raised-ok _ registry (rw n at h))
    | inr (entries, e) ↦
        let (prompts, _, checks) = bind-ok (collected entries []) _ registry (rw e at h) in
        let (_, passed, made) = bind-ok (check_prompts lib disk prompts) _ registry checks in
        let bare : Registry = record { prompts = prompts; bundle_cache = [] } in
        let same = ok-eq bare registry made in
        subst (λ (r : Registry). get s v r ≡ some ref → IsReadable (get_prompt lib disk s v r).0)
          same
          (λ at.
            kept-IsReadable s v bare (built lib disk s v (get s v bare)) (
              rw at (built-IsReadable s v ref (check_prompts-IsChecked s v ref prompts passed at))))
          listed
  ]
