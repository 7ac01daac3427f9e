-- ===== src/Api/Idempotency/Tests.antt =====
-- A keyed order of idempotency.py and its retry.
use lumine_hedge_fund.Prelude.{
  ℕ, ◌+◌, ◌<◌, ◌≡◌, refl, arith, true, false, none, some, [], ◌∷◌, ◌++◌, lookup, map,
}
use lumine_hedge_fund.Api.Idempotency.{
  idempotency_ttl, Request, State, Environment, Library, Sent, forwarded, joined, store_key, live,
  call, is_success, given_key,
}
use lumine_hedge_fund.Api.Idempotency.Replay.{IsKeyed, IsStorable, IsAnswer, call-replays}
use lumine_hedge_fund.Api.Envelope.{Json, object, boolean, other, empty, field, marked}
use lumine_hedge_fund.Api.Idempotency.Capture.{begins, sends, stores, Captured, run, run-overtaken}

-- Every body that is not empty is this envelope.
abbrev envelope : Json
envelope = object (field "meta" (object (field "status" (other "ok") empty)) empty)

abbrev library : Library
library = record {
  app = λ q. record { status_code = 201; chunks = (1 ∷ []) ∷ (2 ∷ []) ∷ [] };
  sha256_hex = λ b. "h";
  is_utf8 = λ b. true;
  loads = λ b. elim b [ [] ↦ none | _ ∷ _ ↦ some envelope ];
  dumps = λ json. 3 ∷ [];
}

abbrev order : Request
order = record {
  is_http = true;
  method = "POST";
  path = "/orders";
  query_string = "";
  api_key = some "k";
  idempotency_key = some "i1";
  body = 7 ∷ [];
}

abbrev fresh : State
fresh = record { store = []; calls = [] }

abbrev moment : ℕ → Environment
moment now = record {
  now = now;
  answered_at = now;
  get_fails = false;
  set_fails = false;
  delete_fails = false;
}

order-IsKeyed : IsKeyed library order "i1"
unfolding given_key
order-IsKeyed = record { http = refl; post = refl; given = refl }

order-IsStorable : IsStorable library (moment 0) order
unfolding is_success
order-IsStorable = (refl, refl, refl)

nothing_live : live 0 (lookup (store_key order "i1") fresh.store) ≡ none
unfolding live lookup store_key
nothing_live = refl

soon : 10 < 0 + idempotency_ttl
soon = omega arith

abbrev after_order : State
after_order = (call library (moment 0) order fresh).1

call-replays_example :
    ((call library (moment 0) order fresh).0 ≡ forwarded (library.app order))
    × (after_order.calls ≡ order ∷ [])
    × (sent : Sent) × (call library (moment 10) order after_order ≡ (sent, after_order))
    × IsAnswer library order order sent
call-replays_example =
    call-replays library (moment 0) (moment 10) "i1" "i1" order order fresh order-IsKeyed
      order-IsKeyed refl refl nothing_live order-IsStorable refl soon

-- The retry has the mark, and the status of the first answer.
is_replayed :
    marked (some envelope)
    ≡ some (
        object (
          field "meta"
            (object (field "status" (other "ok") (field "idempotent_replay" (boolean true) empty)))
            empty))
unfolding marked
is_replayed = refl

abbrev nothing : Captured
nothing = record { buffer = []; bodies = [] }

run-overtaken_example :
    (run
      (begins 1
        ∷ (map (sends 1) ((1 ∷ []) ∷ [])
            ++ begins 2
              ∷ (map (sends 1) ((2 ∷ []) ∷ [])
                  ++ (map (sends 2) ((9 ∷ []) ∷ []) ++ stores 1 ∷ []))))
      nothing).bodies
    ≡ (1, joined ((2 ∷ []) ∷ (9 ∷ []) ∷ [])) ∷ []
run-overtaken_example = run-overtaken 1 2 ((1 ∷ []) ∷ []) ((2 ∷ []) ∷ []) ((9 ∷ []) ∷ []) nothing
