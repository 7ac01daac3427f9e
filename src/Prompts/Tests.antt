-- ===== src/Prompts/Tests.antt =====
-- A registry of two versions of a prompt, under a toy hash, for prompts/registry.py.
use lumine_hedge_fund.Prelude.{
  ◌≡◌, refl, none, some, [], ◌∷◌, pos, str_eq, if◌then◌else◌, insert, lookup, after_first, join,
}
use lumine_hedge_fund.Prompts.{
  Library, Entry, Disk, PromptRef, PromptBundle, Registry, missing_prompt_file, ok, raised, get,
  get_latest, list_prompts,
}
use lumine_hedge_fund.Prompts.Loading.{load_registry}
use lumine_hedge_fund.Prompts.Bundles.{get_prompt}
use lumine_hedge_fund.Prompts.Pinned.{get_all}
use lumine_hedge_fund.Prompts.Source.{IsListedIn, get_prompt-IsListedIn}
use lumine_hedge_fund.Prompts.Listed.{IsReadable, load_registry-IsReadable}

-- The prompt files are one byte long, and decode to a text with front matter.
abbrev lib : Library
lib = record {
  sha256_hex = λ b. elim b [ [] ↦ "h0" | _ ∷ _ ↦ "h1" ];
  decode = λ b. some "---\nrole: x\n---\nHello";
  load_json = λ b. some "{}";
  strip = λ s. s;
  parse_int =
      λ s. if str_eq s "10" then some (pos 10) else if str_eq s "9" then some (pos 9) else none;
}

abbrev entry : Entry
entry = record {
  sub_role = some "news_analyst";
  version = some "v9";
  prompt_ref = some "news.md";
  expected_hash = some "h1";
  model_tier_hint = none;
  variables = none;
  output_schema_ref = none;
}

abbrev disk : Disk
disk = record {
  registry = some (entry ∷ record entry { version = some "v10" } ∷ []);
  files = λ path. if str_eq path "news.md" then some (1 ∷ []) else none;
}

-- The prompt file is gone.
abbrev emptied : Disk
emptied = record disk { files = λ path. none }

abbrev ref : PromptRef
ref = record {
  sub_role = "news_analyst";
  version = "v9";
  prompt_ref = "news.md";
  expected_hash = "h1";
  model_tier_hint = "cost-efficient";
  variables = [];
  output_schema_ref = none;
}

abbrev registry : Registry
registry = record {
  prompts = ("news_analyst", ("v9", ref) ∷ ("v10", record ref { version = "v10" }) ∷ []) ∷ [];
  bundle_cache = [];
}

abbrev bundle : PromptBundle
bundle = record {
  pins = record {
    sub_role = "news_analyst";
    version = "v9";
    prompt_ref = "news.md";
    prompt_hash = "h1";
  };
  text = "Hello";
  variables = [];
  output_schema = "{}";
  model_tier_hint = "cost-efficient";
}

is_loaded : load_registry lib disk ≡ ok registry
unfolding load_registry insert lookup
is_loaded = refl

is_missing : load_registry lib emptied ≡ raised (missing_prompt_file "news.md")
unfolding load_registry insert lookup
is_missing = refl

-- The versions are compared as numbers.
is_latest : get_latest lib "news_analyst" registry ≡ ok (some (record ref { version = "v10" }))
unfolding get_latest lookup after_first
is_latest = refl

are_listed : list_prompts registry ≡ ("news_analyst", "v9") ∷ ("news_analyst", "v10") ∷ []
unfolding list_prompts
are_listed = refl

is_given : (get_prompt lib disk "news_analyst" "v9" registry).0 ≡ ok bundle
unfolding get_prompt lookup join
is_given = refl

is_given_later :
    (get_prompt lib disk "news_analyst" "v9"
      (get_all lib ((emptied, "news_analyst", "v10") ∷ []) registry)).0
    ≡ ok bundle
unfolding get_prompt get_all lookup join
is_given_later = refl

get_prompt-IsListedIn_example : IsListedIn lib disk "news_analyst" "v9" bundle
get_prompt-IsListedIn_example =
    get_prompt-IsListedIn lib disk disk registry ((emptied, "news_analyst", "v10") ∷ [])
      "news_analyst" "v9" bundle is_loaded is_given_later

is_ref : get "news_analyst" "v9" registry ≡ some ref
unfolding get lookup
is_ref = refl

load_registry-IsReadable_example :
    IsReadable lib disk (get_prompt lib disk "news_analyst" "v9" registry).0
load_registry-IsReadable_example =
    load_registry-IsReadable lib disk "news_analyst" "v9" ref registry is_loaded is_ref
