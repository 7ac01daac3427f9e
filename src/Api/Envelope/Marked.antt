-- ===== src/Api/Envelope/Marked.antt =====
-- What a replay's payload is: idempotency.py, `_replay`.
use lumine_hedge_fund.Prelude.{
  ℕ, ◌≡◌, ◌≢◌, refl, sym, ap, ◌∙◌, arith, eq_iff, ◌⊎◌, inl, inr, true, false, Option, none, some,
  List, String, str_eq, if◌then◌else◌,
}
use lumine_hedge_fund.Api.Envelope.{
  Json, object, boolean, other, Fields, empty, field, get, put, with_meta, marked, dumped,
  payload_of,
}

get-put :
    (key k : String) (value : Json) (fields : Fields)
    → get k (put key value fields) ≡ (if str_eq key k then some value else get k fields)
unfolding get put
get-put key k value empty = refl
get-put key k value (field j old fields) =
    ground (arith, eq_iff key k, eq_iff j key, eq_iff j k, get-put key k value fields)

-- The fields are others only in `meta`, and that only in the mark, which it has.
pub record IsMarked (fields meta after : Fields) : Type 0 where
  pub after_meta : Fields
  pub has_meta : get "meta" after ≡ some (object after_meta)
  pub has_mark : get "idempotent_replay" after_meta ≡ some (boolean true)
  pub keeps_meta :
      (k : String) → str_eq "idempotent_replay" k ≡ false → get k after_meta ≡ get k meta
  pub keeps_fields : (k : String) → str_eq "meta" k ≡ false → get k after ≡ get k fields

-- The payload of a replay is the body's envelope with the mark, or, where the body is no envelope
-- with a `meta`, the body.
abbrev pub IsReplayOf : (List ℕ → Option Json) → (Json → List ℕ) → List ℕ → List ℕ → Type 0
IsReplayOf loads dumps body payload =
    ((fields : Fields) × (meta : Fields) × (after : Fields) × (loads body ≡ some (object fields))
      × (get "meta" fields ≡ some (object meta))
      × (payload ≡ dumps (object after))
      × IsMarked fields meta after)
    ⊎ (((fields meta : Fields)
          → loads body ≡ some (object fields)
          → get "meta" fields ≢ some (object meta))
        × (payload ≡ body))

fields_of : Option Json → Fields
fields_of none = empty
fields_of (some (object fields)) = fields
fields_of (some (boolean b)) = empty
fields_of (some (other text)) = empty

-- The body has one `meta`, whatever its fields are called.
same_meta :
    (o : Option Json) (fields fs : Fields)
    → o ≡ some (object fields)
    → o ≡ some (object fs)
    → get "meta" fields ≡ get "meta" fs
unfolding fields_of
same_meta o fields fs l e = ap (λ (j : Option Json). get "meta" (fields_of j)) (sym l ∙ e)

with_meta-IsReplayOf :
    (loads : List ℕ → Option Json) (dumps : Json → List ℕ) (body : List ℕ) (fields : Fields)
    (o : Option Json)
    → loads body ≡ some (object fields)
    → get "meta" fields ≡ o
    → IsReplayOf loads dumps body (dumped dumps body (with_meta fields o))
unfolding with_meta dumped
with_meta-IsReplayOf loads dumps body fields none l g = inr (
  (λ fs meta e has. let unlike = sym g ∙ same_meta (loads body) fields fs l e ∙ has in absurd cc),
  refl,
)
with_meta-IsReplayOf loads dumps body fields (some (boolean b)) l g = inr (
  (λ fs meta e has. let unlike = sym g ∙ same_meta (loads body) fields fs l e ∙ has in absurd cc),
  refl,
)
with_meta-IsReplayOf loads dumps body fields (some (other text)) l g = inr (
  (λ fs meta e has. let unlike = sym g ∙ same_meta (loads body) fields fs l e ∙ has in absurd cc),
  refl,
)
with_meta-IsReplayOf loads dumps body fields (some (object meta)) l g =
    let after_meta = put "idempotent_replay" (boolean true) meta in
    let at_meta = λ (k : String). get-put "meta" k (object after_meta) fields in
    let at_mark = λ (k : String). get-put "idempotent_replay" k (boolean true) meta in
    inl (
      fields,
      meta,
      put "meta" (object after_meta) fields,
      l,
      g,
      refl,
      record {
        after_meta = after_meta;
        has_meta = at_meta "meta";
        has_mark = at_mark "idempotent_replay";
        keeps_meta = λ k e. rw (at_mark k, e) refl;
        keeps_fields = λ k e. rw (at_meta k, e) refl;
      },
    )

marked-IsReplayOf :
    (loads : List ℕ → Option Json) (dumps : Json → List ℕ) (body : List ℕ) (o : Option Json)
    → loads body ≡ o
    → IsReplayOf loads dumps body (dumped dumps body (marked o))
unfolding marked dumped
marked-IsReplayOf loads dumps body none l =
    inr ((λ fs meta e has. let unlike = sym l ∙ e in absurd cc), refl)
marked-IsReplayOf loads dumps body (some (boolean b)) l =
    inr ((λ fs meta e has. let unlike = sym l ∙ e in absurd cc), refl)
marked-IsReplayOf loads dumps body (some (other text)) l =
    inr ((λ fs meta e has. let unlike = sym l ∙ e in absurd cc), refl)
marked-IsReplayOf loads dumps body (some (object fields)) l =
    with_meta-IsReplayOf loads dumps body fields (get "meta" fields) l refl

pub payload_of-IsReplayOf :
    (loads : List ℕ → Option Json) (dumps : Json → List ℕ) (body : List ℕ)
    → IsReplayOf loads dumps body (payload_of loads dumps body)
unfolding payload_of
payload_of-IsReplayOf loads dumps body = marked-IsReplayOf loads dumps body (loads body) refl
