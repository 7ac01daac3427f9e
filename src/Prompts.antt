-- ===== src/Prompts.antt =====
-- backend/src/lumine/prompts/registry.py. SHA-256, UTF-8, json, `str.strip` and `int` of a text are
-- parameters; registry.yaml is given parsed, and an output schema is its JSON text. A disk is what the
-- files under the base path hold in one call.
pub mod Loading
pub mod Bundles
pub mod Results
pub mod Entries
pub mod Source
pub mod Pinned
pub mod Repeat
pub mod Listed
mod Tests
use lumine_hedge_fund.Prelude.{
  ℕ, Bool, true, false, Option, none, some, List, [], ◌∷◌, ◌++◌, map, String, ℤ, ltb_ℤ, ◌+◌, length,
  str_eq, if◌then◌else◌, Dict, lookup, insert, split, after_first,
}

abbrev pub Bytes : Type 0
Bytes = List ℕ

pub record Library : Type 0 where
  pub sha256_hex : Bytes → String
  pub decode : Bytes → Option String
  pub load_json : Bytes → Option String
  pub strip : String → String
  pub parse_int : String → Option ℤ

-- An item under `prompts` in registry.yaml; `none` is a key that is not there.
pub record Entry : Type 0 where
  pub sub_role : Option String
  pub version : Option String
  pub prompt_ref : Option String
  pub expected_hash : Option String
  pub model_tier_hint : Option String
  pub variables : Option (List String)
  pub output_schema_ref : Option String

pub record Disk : Type 0 where
  pub registry : Option (List Entry)
  pub files : String → Option Bytes

pub record PromptRef : Type 0 where
  pub sub_role : String
  pub version : String
  pub prompt_ref : String
  pub expected_hash : String
  pub model_tier_hint : String
  pub variables : List String
  pub output_schema_ref : Option String

pub record PromptPins : Type 0 where
  pub sub_role : String
  pub version : String
  pub prompt_ref : String
  pub prompt_hash : String

pub record PromptBundle : Type 0 where
  pub pins : PromptPins
  pub text : String
  pub variables : List String
  pub output_schema : String
  pub model_tier_hint : String

-- `_bundle_cache` is a list of its items.
pub record Registry : Type 0 where
  pub prompts : Dict (Dict PromptRef)
  pub bundle_cache : List (String × String × PromptBundle)

-- The exceptions of the module, and those that its calls let through.
pub data RegistryError : Type 0 where
  missing_registry_file : RegistryError
  missing_key : String → RegistryError
  missing_prompt_file : String → RegistryError
  hash_mismatch : String → String → RegistryError
  schema_not_found : String → RegistryError
  prompt_not_found : RegistryError
  not_utf8 : RegistryError
  schema_not_json : RegistryError
  version_not_number : String → RegistryError

pub data Result (A : Type 0) : Type 0 where
  ok : A → Result A
  raised : RegistryError → Result A

infixl 10 ◌>>=◌
unfoldable pub ◌>>=◌ : {A B : Type 0} → Result A → (A → Result B) → Result B
ok a >>= f = f a
raised e >>= f = raised e

unfoldable pub or_versions : Option (Dict PromptRef) → Dict PromptRef
or_versions none = []
or_versions (some versions) = versions

-- `self._prompts.get(sub_role, {})`
unfoldable pub versions_of : String → Registry → Dict PromptRef
unfolding or_versions
versions_of sub_role registry = or_versions (lookup sub_role registry.prompts)

-- `Registry.get`
unfoldable pub get : String → String → Registry → Option PromptRef
unfolding versions_of
get sub_role version registry = lookup version (versions_of sub_role registry)

unfoldable pub keys {ℓ} : {V : Type ℓ} → Dict V → List String
keys [] = []
keys ((k, v) ∷ d) = k ∷ keys d

unfoldable pub list_versions : String → Registry → List String
unfolding versions_of keys
list_versions sub_role registry = keys (versions_of sub_role registry)

unfoldable pub list_subroles : Registry → List String
unfolding keys
list_subroles registry = keys registry.prompts

unfoldable pub pairs_of : Dict (Dict PromptRef) → List (String × String)
unfolding keys
pairs_of [] = []
pairs_of ((sub_role, versions) ∷ prompts) =
    map (λ (version : String). (sub_role, version)) (keys versions) ++ pairs_of prompts

unfoldable pub list_prompts : Registry → List (String × String)
unfolding pairs_of
list_prompts registry = pairs_of registry.prompts

-- `__len__`
unfoldable pub count_of : Dict (Dict PromptRef) → ℕ
count_of [] = 0
count_of ((sub_role, versions) ∷ prompts) = length versions + count_of prompts

-- `[int(x) for x in v[1:].split(".")]`
unfoldable pub numbers_of : Library → List String → Option (List ℤ)
numbers_of lib [] = some []
numbers_of lib (part ∷ parts) = elim (lib.parse_int part) [
  | none ↦ none
  | some n ↦ elim (numbers_of lib parts) [ none ↦ none | some ns ↦ some (n ∷ ns) ]
]

unfoldable pub version_key : Library → String → Option (List ℤ)
unfolding numbers_of split
version_key lib version = numbers_of lib (split "." (after_first version))

-- The order of lists of numbers.
unfoldable pub is_less : List ℤ → List ℤ → Bool
is_less ns [] = false
is_less [] (m ∷ ms) = true
is_less (n ∷ ns) (m ∷ ms) =
    let rest = is_less ns ms in if ltb_ℤ n m then true else if ltb_ℤ m n then false else rest

-- `max(versions, key=...)` after a first version: the first one of the greatest.
unfoldable pub newest : Library → String → List ℤ → List String → Result String
unfolding is_less version_key
newest lib best key [] = ok best
newest lib best key (version ∷ versions) = elim (version_key lib version) [
  | none ↦ raised (version_not_number version)
  | some other ↦
      if is_less key other then newest lib version other versions else newest lib best key versions
]

unfoldable pub latest_version : Library → List String → Result (Option String)
unfolding newest ◌>>=◌
latest_version lib [] = ok none
latest_version lib (version ∷ versions) = elim (version_key lib version) [
  | none ↦ raised (version_not_number version)
  | some key ↦ newest lib version key versions >>= λ best. ok (some best)
]

unfoldable pub ref_at : String → Registry → Option String → Option PromptRef
unfolding get
ref_at sub_role registry none = none
ref_at sub_role registry (some version) = get sub_role version registry

unfoldable pub get_latest : Library → String → Registry → Result (Option PromptRef)
unfolding latest_version list_versions ref_at ◌>>=◌
get_latest lib sub_role registry = latest_version lib (list_versions sub_role registry) >>= λ best.
    ok (ref_at sub_role registry best)

unfoldable pub variables_of : Option PromptRef → List String
variables_of none = []
variables_of (some ref) = ref.variables

unfoldable pub get_variables : Library → String → Registry → Result (List String)
unfolding get_latest variables_of ◌>>=◌
get_variables lib sub_role registry =
    get_latest lib sub_role registry >>= λ ref. ok (variables_of ref)
