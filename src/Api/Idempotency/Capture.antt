-- ===== src/Api/Idempotency/Capture.antt =====
-- The capture of response bodies in idempotency.py: `self._captured` belongs to the middleware, not to
-- the request, and every `await` of a request may be followed by a step of another.
use lumine_hedge_fund.Prelude.{ℕ, ◌≡◌, refl, ap, sym, ◌∙◌, List, [], ◌∷◌, ◌++◌, map}
use mathlib.Core.List.{append_assoc, append-nil}
use lumine_hedge_fund.Api.Idempotency.{Bytes, joined}

-- The steps of a request: it starts to capture, the app sends a chunk, and its body is stored.
pub data Event : Type 0 where
  begins : ℕ → Event
  sends : ℕ → Bytes → Event
  stores : ℕ → Event

-- The shared buffer, and the bodies stored so far, by request.
pub record Captured : Type 0 where
  pub buffer : List Bytes
  pub bodies : List (ℕ × Bytes)

unfoldable pub step : Event → Captured → Captured
unfolding joined
step (begins id) c = record c { buffer = [] }
step (sends id chunk) c = record c { buffer = c.buffer ++ chunk ∷ [] }
step (stores id) c = record c { bodies = c.bodies ++ (id, joined c.buffer) ∷ [] }

unfoldable pub run : List Event → Captured → Captured
unfolding step
run [] c = c
run (e ∷ events) c = run events (step e c)

-- What a request does while no other one runs.
abbrev pub alone : ℕ → List Bytes → List Event
alone id chunks = begins id ∷ (map (sends id) chunks ++ stores id ∷ [])

run-append : (es fs : List Event) (c : Captured) → run (es ++ fs) c ≡ run fs (run es c)
unfolding run
run-append [] fs c = refl
run-append (e ∷ es) fs c = run-append es fs (step e c)

run-sends :
    (id : ℕ) (chunks : List Bytes) (c : Captured)
    → run (map (sends id) chunks) c ≡ record c { buffer = c.buffer ++ chunks }
unfolding run step
run-sends id [] c = ap (λ b. record c { buffer = b }) (sym (append-nil c.buffer))
run-sends id (x ∷ chunks) c =
    run-sends id chunks (step (sends id x) c)
    ∙ ap (λ b. record c { buffer = b }) (append_assoc c.buffer (x ∷ []) chunks)

run-sends_then :
    (id : ℕ) (chunks : List Bytes) (es : List Event) (c : Captured)
    → run (map (sends id) chunks ++ es) c ≡ run es (record c { buffer = c.buffer ++ chunks })
run-sends_then id chunks es c =
    run-append (map (sends id) chunks) es c ∙ ap (run es) (run-sends id chunks c)

-- A request that runs alone stores the whole body that was sent for it.
pub run-alone :
    (id : ℕ) (chunks : List Bytes) (c : Captured)
    → run (alone id chunks) c
      ≡ record { buffer = chunks; bodies = c.bodies ++ (id, joined chunks) ∷ [] }
unfolding run step
run-alone id chunks c = run-sends_then id chunks (stores id ∷ []) (step (begins id) c)

-- A request that is overtaken: another one starts after the first chunks of its body were sent, and
-- sends its own before the first one is stored. The first request then stores the rest of its body
-- followed by the body of the other, whatever the chunks are.
pub run-overtaken :
    (id other : ℕ) (first rest others : List Bytes) (c : Captured)
    → (run
        (begins id
          ∷ (map (sends id) first
              ++ begins other
                ∷ (map (sends id) rest ++ (map (sends other) others ++ stores id ∷ []))))
        c).bodies
      ≡ c.bodies ++ (id, joined (rest ++ others)) ∷ []
unfolding run step
run-overtaken id other first rest others c =
    let stored = stores id ∷ [] in
    let sent = map (sends other) others ++ stored in
    ap (λ d. d.bodies)
      (run-sends_then id first (begins other ∷ (map (sends id) rest ++ sent)) (step (begins id) c)
        ∙ run-sends_then id rest sent (record c { buffer = [] })
        ∙ run-sends_then other others stored (record c { buffer = rest }))
