-- ===== src/Prompts/Results.antt =====
-- Results of prompts/registry.py, and the items of its cache.
use lumine_hedge_fund.Prelude.{
  ◌≡◌, refl, arith, ◌&&◌, none, some, List, [], ◌∷◌, ◌++◌, String, str_eq, if◌then◌else◌,
}
use lumine_hedge_fund.Prompts.{PromptBundle, RegistryError, Result, ok, raised, ◌>>=◌}
use lumine_hedge_fund.Prompts.Bundles.{cached}

pub raised-ok : {A : Type 0} (e : RegistryError) (a : A) → raised e ≡ ok a → ⊥
raised-ok e a h = absurd cc

pub some-eq : {A : Type 0} (a b : A) → some a ≡ some b → a ≡ b
some-eq a b h = cc

pub ok-eq : {A : Type 0} (a b : A) → ok a ≡ ok b → a ≡ b
ok-eq a b h = cc

pub bind-ok :
    {A B : Type 0} (r : Result A) (f : A → Result B) (b : B)
    → r >>= f ≡ ok b
    → (a : A) × (r ≡ ok a) × (f a ≡ ok b)
unfolding ◌>>=◌
bind-ok (ok a) f b h = (a, refl, h)
bind-ok (raised e) f b h = absurd (raised-ok e b h)

pub cached-append_some :
    (s v : String) (cache more : List (String × String × PromptBundle)) (b : PromptBundle)
    → cached s v cache ≡ some b
    → cached s v (cache ++ more) ≡ some b
unfolding cached
cached-append_some s v [] more b h = absurd cc
cached-append_some s v ((t, w, c) ∷ cache) more b h =
    ground (arith, cached-append_some s v cache more b)

pub cached-append_none :
    (s v t w : String) (cache : List (String × String × PromptBundle)) (b : PromptBundle)
    → cached s v cache ≡ none
    → cached s v (cache ++ (t, w, b) ∷ []) ≡ (if str_eq t s && str_eq w v then some b else none)
unfolding cached
cached-append_none s v t w [] b h = refl
cached-append_none s v t w ((x, y, c) ∷ cache) b h =
    ground (arith, cached-append_none s v t w cache b)
