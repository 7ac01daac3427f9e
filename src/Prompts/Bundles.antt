-- ===== src/Prompts/Bundles.antt =====
-- `get_prompt` of prompts/registry.py, and the cache of bundles.
use lumine_hedge_fund.Prelude.{
  ◌&&◌, Option, none, some, List, [], ◌∷◌, ◌++◌, String, str_eq, if◌then◌else◌, drop, split, join,
  starts_with,
}
use lumine_hedge_fund.Prompts.{
  Bytes, Library, Disk, PromptRef, PromptBundle, Registry, missing_prompt_file, hash_mismatch,
  schema_not_found, prompt_not_found, not_utf8, schema_not_json, Result, ok, raised, ◌>>=◌, get,
}

-- `self._bundle_cache.get((sub_role, version))`
unfoldable pub cached :
    String → String → List (String × String × PromptBundle) → Option PromptBundle
cached sub_role version [] = none
cached sub_role version ((s, v, bundle) ∷ cache) =
    if str_eq s sub_role && str_eq v version then some bundle else cached sub_role version cache

module _ (lib : Library) where
  -- The lines after the closing marker of the front matter.
  unfoldable pub after_marker : List String → Option (List String)
  after_marker [] = none
  after_marker (line ∷ lines) =
      if str_eq (lib.strip line) "---" then some lines else after_marker lines

  unfoldable pub joined : String → Option (List String) → String
  joined content none = content
  joined content (some lines) = join "\n" lines

  -- The text of a prompt file without its front matter.
  unfoldable pub body_of : String → String
  unfolding after_marker joined split starts_with
  body_of content =
      if starts_with "---" content
      then joined content (after_marker (drop 1 (split "\n" content)))
      else content

  unfoldable pub parsed_schema : Option Bytes → String → Result String
  parsed_schema none path = raised (schema_not_found path)
  parsed_schema (some raw_bytes) path = elim (lib.load_json raw_bytes) [
    | none ↦ raised schema_not_json
    | some schema ↦ ok schema
  ]

  unfoldable pub schema_of : Disk → Option String → Result String
  unfolding parsed_schema
  schema_of disk none = ok "{}"
  schema_of disk (some path) =
      if str_eq path "" then ok "{}" else parsed_schema (disk.files path) path

  -- The bundle of a file that decodes to a content.
  unfoldable pub checked_bundle :
      Disk → String → String → PromptRef → Bytes → Option String → Result PromptBundle
  unfolding schema_of ◌>>=◌ body_of
  checked_bundle disk sub_role version ref raw_bytes none = raised not_utf8
  checked_bundle disk sub_role version ref raw_bytes (some content) =
      if str_eq (lib.sha256_hex raw_bytes) ref.expected_hash
      then (schema_of disk ref.output_schema_ref >>= λ output_schema. ok (record {
        pins = record {
          sub_role = sub_role;
          version = version;
          prompt_ref = ref.prompt_ref;
          prompt_hash = lib.sha256_hex raw_bytes;
        };
        text = body_of content;
        variables = ref.variables;
        output_schema = output_schema;
        model_tier_hint = ref.model_tier_hint;
      }))
      else raised (hash_mismatch ref.expected_hash (lib.sha256_hex raw_bytes))

  unfoldable pub bundle_of : Disk → String → String → PromptRef → Option Bytes → Result PromptBundle
  unfolding checked_bundle
  bundle_of disk sub_role version ref none = raised (missing_prompt_file ref.prompt_ref)
  bundle_of disk sub_role version ref (some raw_bytes) =
      checked_bundle disk sub_role version ref raw_bytes (lib.decode raw_bytes)

  unfoldable pub built : Disk → String → String → Option PromptRef → Result PromptBundle
  unfolding bundle_of
  built disk sub_role version none = raised prompt_not_found
  built disk sub_role version (some ref) =
      bundle_of disk sub_role version ref (disk.files ref.prompt_ref)

  -- `self._bundle_cache[cache_key] = bundle`, for a key that is not there.
  unfoldable pub kept :
      String → String → Registry → Result PromptBundle → Result PromptBundle × Registry
  kept sub_role version registry (raised e) = (raised e, registry)
  kept sub_role version registry (ok bundle) = (
    ok bundle,
    record registry { bundle_cache = registry.bundle_cache ++ (sub_role, version, bundle) ∷ [] },
  )

  unfoldable pub found :
      Disk → String → String → Registry → Option PromptBundle → Result PromptBundle × Registry
  unfolding kept built get
  found disk sub_role version registry (some bundle) = (ok bundle, registry)
  found disk sub_role version registry none =
      kept sub_role version registry (built disk sub_role version (get sub_role version registry))

  unfoldable pub get_prompt : Disk → String → String → Registry → Result PromptBundle × Registry
  unfolding found cached
  get_prompt disk sub_role version registry =
      found disk sub_role version registry (cached sub_role version registry.bundle_cache)
