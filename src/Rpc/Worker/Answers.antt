-- ===== src/Rpc/Worker/Answers.antt =====
-- The loop of worker.py, `run_worker`, over the messages of its deliveries.
use lumine_hedge_fund.Prelude.{
  ℕ, ◌≡◌, refl, ap, ◌∙◌, Bool, true, false, Option, none, some, List, [], ◌∷◌, ◌++◌, String, lookup,
  All,
}
use lumine_hedge_fund.Rpc.Queue.{
  Json, object, not_object, malformed, Message, Redis, Environment, get_result, is_final, or_text,
}
use lumine_hedge_fund.Rpc.Worker.{
  process, xack, WorkerState, running, crashed, decoded, read_fields, receive, next, run_worker,
}
use lumine_hedge_fund.Rpc.Worker.Results.{process-answers, process-final}

abbrev pub is_malformed : Json → Bool
is_malformed (object d) = false
is_malformed not_object = false
is_malformed malformed = true

abbrev pub payload_of : Environment → Message → Json
payload_of env m = env.loads (or_text (lookup "payload" m.fields) "{}")

-- The command of a message has its final result, if the message names a command.
abbrev pub Answered : Option String → Option String → Redis → Type 0
Answered (some command) (some id) r = is_final (get_result id r) ≡ true
Answered _ _ r = Unit

abbrev pub IsAnswered : Redis → Message → Type 0
IsAnswered r m = Answered (lookup "command" m.fields) (lookup "command_id" m.fields) r

-- What is final stays final.
Stays : Redis → Redis → Type 0
Stays r r' = (k : String) → is_final (get_result k r) ≡ true → is_final (get_result k r') ≡ true

get_result-xack : (k : String) (id : ℕ) (r : Redis) → get_result k (xack id r) ≡ get_result k r
unfolding get_result xack
get_result-xack k id r = refl

module _ (env : Environment) where
  -- A message that the loop survives: what it leaves has the answer, and keeps all earlier ones.
  Survives : Option String → Option String → Redis → WorkerState → Type 0
  Survives command id r w = (r' : Redis) × (w ≡ running r') × Answered command id r' × Stays r r'

  decoded-Survives :
      (n : ℕ) (id command : String) (payload : Json) (r : Redis)
      → is_malformed payload ≡ false
      → Survives (some command) (some id) r (decoded env n id command payload r)
  unfolding decoded Survives Stays
  decoded-Survives n id command malformed r h = absurd cc
  decoded-Survives n id command (object d) r h = (
    xack n (process env id command (object d) r),
    refl,
    rw (get_result-xack id n (process env id command (object d) r))
        (process-answers env id command (object d) r),
    λ k f.
        rw (get_result-xack k n (process env id command (object d) r))
          (process-final env id command k (object d) r f),
  )
  decoded-Survives n id command not_object r h = (
    xack n (process env id command not_object r),
    refl,
    rw (get_result-xack id n (process env id command not_object r))
        (process-answers env id command not_object r),
    λ k f.
        rw (get_result-xack k n (process env id command not_object r))
          (process-final env id command k not_object r f),
  )

  read_fields-Survives :
      (n : ℕ) (command id : Option String) (payload : String) (r : Redis)
      → is_malformed (env.loads payload) ≡ false
      → Survives command id r (read_fields env n command id payload r)
  unfolding read_fields Survives Stays
  read_fields-Survives n (some command) (some id) payload r h =
      decoded-Survives n id command (env.loads payload) r h
  read_fields-Survives n none (some id) payload r h =
      (xack n r, refl, tt, λ k f. rw (get_result-xack k n r) f)
  read_fields-Survives n none none payload r h =
      (xack n r, refl, tt, λ k f. rw (get_result-xack k n r) f)
  read_fields-Survives n (some command) none payload r h =
      (xack n r, refl, tt, λ k f. rw (get_result-xack k n r) f)

  Answered-Stays :
      (command id : Option String) (r r' : Redis)
      → Stays r r'
      → Answered command id r
      → Answered command id r'
  unfolding Stays
  Answered-Stays (some command) (some id) r r' s a = s id a
  Answered-Stays none (some id) r r' s a = tt
  Answered-Stays none none r r' s a = tt
  Answered-Stays (some command) none r r' s a = tt

  run_worker-Stays :
      (messages : List Message) (r : Redis)
      → All (λ m. is_malformed (payload_of env m) ≡ false) messages
      → (r' : Redis) × (run_worker env messages r ≡ running r')
        × All (IsAnswered r') messages
        × Stays r r'
  unfolding run_worker receive next Survives Stays
  run_worker-Stays [] r h = (r, refl, tt, λ k f. f)
  run_worker-Stays (m ∷ messages) r h =
      let (r1, e, a, s) =
        read_fields-Survives m.message_id (lookup "command" m.fields) (lookup "command_id" m.fields)
          (or_text (lookup "payload" m.fields) "{}") r h.0 in
      let (r2, e', b, s') = run_worker-Stays messages r1 h.1 in
      (
        r2,
        ap (λ w. next w (run_worker env messages)) e ∙ e',
        (Answered-Stays (lookup "command" m.fields) (lookup "command_id" m.fields) r1 r2 s' a, b),
        λ k f. s' k (s k f),
      )

  -- The worker survives every delivery whose payloads are JSON, and then each of its commands has a
  -- final result: unknown commands, payloads that are no objects and handlers that raise included.
  pub run_worker-answers :
      (messages : List Message) (r : Redis)
      → All (λ m. is_malformed (payload_of env m) ≡ false) messages
      → (r' : Redis) × (run_worker env messages r ≡ running r') × All (IsAnswered r') messages
  run_worker-answers messages r h = let (r', e, a, s) = run_worker-Stays messages r h in (r', e, a)

  next_assoc :
      (w : WorkerState) (f g h : Redis → WorkerState)
      → ((r : Redis) → h r ≡ next (f r) g)
      → next w h ≡ next (next w f) g
  unfolding next
  next_assoc (running r) f g h e = e r
  next_assoc (crashed r) f g h e = refl

  run_worker-append :
      (before after : List Message) (r : Redis)
      → run_worker env (before ++ after) r ≡ next (run_worker env before r) (run_worker env after)
  unfolding run_worker next
  run_worker-append [] after r = refl
  run_worker-append (m ∷ before) after r =
      next_assoc (receive env m r) (run_worker env before) (run_worker env after)
        (run_worker env (before ++ after)) (run_worker-append before after)

  -- Behind messages whose payloads are JSON, a message that names a command and an identifier and
  -- whose payload is not JSON ends the worker: the messages after it are not received.
  pub run_worker-malformed :
      (before after : List Message) (m : Message) (command id : String) (r : Redis)
      → All (λ b. is_malformed (payload_of env b) ≡ false) before
      → lookup "command" m.fields ≡ some command
      → lookup "command_id" m.fields ≡ some id
      → payload_of env m ≡ malformed
      → (r' : Redis) × (run_worker env before r ≡ running r')
        × (run_worker env (before ++ m ∷ after) r ≡ crashed r')
  run_worker-malformed before after m command id r h c i p =
      let (r', e, a) = run_worker-answers before r h in
      let ends : run_worker env (m ∷ after) r' ≡ crashed r' =
        unfold run_worker receive read_fields decoded next in rw (c, i, p) refl in
      (
        r',
        e,
        run_worker-append before (m ∷ after) r
            ∙ ap (λ w. next w (run_worker env (m ∷ after))) e
            ∙ (unfold next in ends),
      )
