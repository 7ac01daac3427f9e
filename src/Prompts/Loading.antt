-- ===== src/Prompts/Loading.antt =====
-- Loading of registry.yaml in prompts/registry.py, with the check of every prompt file.
use lumine_hedge_fund.Prelude.{
  Option, none, some, List, [], ◌∷◌, String, str_eq, if◌then◌else◌, Dict, lookup, insert,
}
use lumine_hedge_fund.Prompts.{
  Bytes, Library, Entry, Disk, PromptRef, Registry, missing_registry_file, missing_key,
  missing_prompt_file, hash_mismatch, schema_not_found, Result, ok, raised, ◌>>=◌, or_versions,
}

unfoldable pub required : String → Option String → Result String
required key none = raised (missing_key key)
required key (some value) = ok value

unfoldable pub or_default {ℓ} : {A : Type ℓ} → A → Option A → A
or_default default none = default
or_default default (some a) = a

-- The reference of an item of registry.yaml.
unfoldable pub ref_of : Entry → Result PromptRef
unfolding ◌>>=◌ required or_default
ref_of entry = do
  sub_role ← required "sub_role" entry.sub_role
  version ← required "version" entry.version
  prompt_ref ← required "prompt_ref" entry.prompt_ref
  expected_hash ← required "expected_hash" entry.expected_hash
  ok (record {
    sub_role = sub_role;
    version = version;
    prompt_ref = prompt_ref;
    expected_hash = expected_hash;
    model_tier_hint = or_default "cost-efficient" entry.model_tier_hint;
    variables = or_default [] entry.variables;
    output_schema_ref = entry.output_schema_ref;
  })

-- `prompts_by_subrole[sub_role][version] = ref`
unfoldable pub with_ref : PromptRef → Dict (Dict PromptRef) → Dict (Dict PromptRef)
unfolding or_versions
with_ref ref prompts =
    insert ref.sub_role (insert ref.version ref (or_versions (lookup ref.sub_role prompts))) prompts

unfoldable pub collected : List Entry → Dict (Dict PromptRef) → Result (Dict (Dict PromptRef))
unfolding ◌>>=◌ ref_of with_ref
collected [] prompts = ok prompts
collected (entry ∷ entries) prompts =
    ref_of entry >>= λ ref. collected entries (with_ref ref prompts)

module _ (lib : Library) (disk : Disk) where
  -- `if ref.output_schema_ref` and the file that it names
  unfoldable pub check_schema : Option String → Result (Unit {0})
  check_schema none = ok tt
  check_schema (some path) =
      if str_eq path ""
      then ok tt
      else elim (disk.files path) [ none ↦ raised (schema_not_found path) | some _ ↦ ok tt ]

  unfoldable pub check_bytes : PromptRef → Option Bytes → Result (Unit {0})
  unfolding check_schema
  check_bytes ref none = raised (missing_prompt_file ref.prompt_ref)
  check_bytes ref (some raw_bytes) =
      if str_eq (lib.sha256_hex raw_bytes) ref.expected_hash
      then check_schema ref.output_schema_ref
      else raised (hash_mismatch ref.expected_hash (lib.sha256_hex raw_bytes))

  unfoldable pub check_versions : Dict PromptRef → Result (Unit {0})
  unfolding ◌>>=◌ check_bytes
  check_versions [] = ok tt
  check_versions ((version, ref) ∷ versions) =
      check_bytes ref (disk.files ref.prompt_ref) >>= λ _. check_versions versions

  unfoldable pub check_prompts : Dict (Dict PromptRef) → Result (Unit {0})
  unfolding ◌>>=◌ check_versions
  check_prompts [] = ok tt
  check_prompts ((sub_role, versions) ∷ prompts) =
      check_versions versions >>= λ _. check_prompts prompts

  -- The entries, once registry.yaml is there.
  unfoldable pub loaded : Option (List Entry) → Result Registry
  unfolding ◌>>=◌ collected check_prompts
  loaded none = raised missing_registry_file
  loaded (some entries) = do
    prompts ← collected entries []
    _ ← check_prompts prompts
    ok (record { prompts = prompts; bundle_cache = [] })

  unfoldable pub load_registry : Result Registry
  unfolding loaded
  load_registry = loaded disk.registry
