-- ===== src/AutogenPipeline/Orchestrator/Steps.antt =====
-- Steps of a cycle that may raise, and those of orchestrator.py that need no environment.
use lumine_hedge_fund.Prelude.{
  Bool, true, false, Option, none, some, List, [], ◌∷◌, ◌++◌, String, is_empty,
}
use lumine_hedge_fund.AutogenPipeline.Orchestrator.{
  Effect, CycleError, missing_key, missing_evidence, World,
}

pub data Result (A : Type 0) : Type 0 where
  ok : A → Result A
  raised : CycleError → Result A

-- A step changes the world, and returns or raises.
abbrev pub M : Type 0 → Type 0
M A = World → Result A × World

abbrev pub then_in : {A B : Type 0} → Result A → (A → M B) → M B
then_in (ok a) g w = g a w
then_in (raised e) g w = (raised e, w)

infixl 5 ◌>>=◌ ◌>>◌
unfoldable pub ◌>>=◌ : {A B : Type 0} → M A → (A → M B) → M B
◌>>=◌ m g w = then_in (m w).0 g (m w).1

unfoldable pub ◌>>◌ : {B : Type 0} → M (Unit {0}) → M B → M B
m >> k = m >>= λ _. k

unfoldable pub return : {A : Type 0} → A → M A
return a w = (ok a, w)

unfoldable pub raise : {A : Type 0} → CycleError → M A
raise e w = (raised e, w)

unfoldable pub raise_if : Bool → CycleError → M (Unit {0})
raise_if true e = raise e
raise_if false e = return tt

unfoldable pub commit : Effect → M (Unit {0})
commit e w = (ok tt, record w { effects = w.effects ++ e ∷ [] })

-- `d[key]`
unfoldable pub item : {A : Type 0} → String → Option A → M A
item key none = raise (missing_key key)
item key (some a) = return a

-- `_require_trace_evidence`
unfoldable pub require_trace_evidence : List String → String → M (Unit {0})
require_trace_evidence trace_ids stage = raise_if (is_empty trace_ids) (missing_evidence stage)
