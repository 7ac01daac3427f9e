-- ===== src/Trading/PositionSync/Snapshot.antt =====
-- The table after a snapshot: position_sync.py, `_upsert_positions`.
use lumine_hedge_fund.Prelude.{
  ℕ, ◌≡◌, refl, sym, ap, ◌∙◌, ◌⊎◌, inl, inr, Bool, true, false, ◌&&◌, Option, none, some, List, [],
  ◌∷◌, ◌==◌, arith, Bool-cases, Option-cases, if◌then◌else◌, is_empty,
}
use lumine_hedge_fund.Trading.PositionSync.{
  Values, Item, Position, is_ticket, contains_ticket, updated, added, upsert_one, with_ticket,
  tickets_of, upsert_item, then_all, upsert_all, is_gone, close_gone, closed, upsert_positions,
}

-- Whether the table has an open position with the ticket.
unfoldable pub has_open : ℕ → List Position → Bool
has_open t [] = false
has_open t (p ∷ positions) =
    let rest = has_open t positions in if is_ticket t p.mt5_ticket && p.is_open then true else rest

upsert_one-has_open :
    (t u now : ℕ) (v : Values) (ps : List Position)
    → (u == t ≡ true) ⊎ (has_open t ps ≡ true)
    → has_open t (upsert_one now u v ps) ≡ true
unfolding has_open upsert_one is_ticket updated added
upsert_one-has_open t u now v [] h = ground arith
upsert_one-has_open t u now v (p ∷ ps) h = elim (Option-cases p.mt5_ticket) [
  | inl e ↦ ground (arith, e, upsert_one-has_open t u now v ps)
  | inr (w, e) ↦ ground (arith, e, upsert_one-has_open t u now v ps)
]

close_gone-has_open :
    (t : ℕ) (tickets : List ℕ) (ps : List Position)
    → has_open t (close_gone tickets ps) ≡ (has_open t ps && contains_ticket t tickets)
unfolding has_open close_gone is_gone is_ticket
close_gone-has_open t tickets [] = refl
close_gone-has_open t tickets (p ∷ ps) = elim (Option-cases p.mt5_ticket) [
  | inl e ↦ ground (arith, e, close_gone-has_open t tickets ps)
  | inr (w, e) ↦ elim (Bool-cases (w == t)) [
    | inl same ↦
        let eq : w ≡ t = ground arith in
        ground (arith, e, eq, same, close_gone-has_open t tickets ps)
    | inr differ ↦ ground (arith, e, differ, close_gone-has_open t tickets ps)
  ]
]

item_then_all-has_open :
    (t now : ℕ) (ticket : Option ℕ) (values : Option Values) (items : List Item)
    (ps : List Position) {ps' : List Position}
    → ((qs : List Position)
        → upsert_all now items qs ≡ some ps'
        → (contains_ticket t (tickets_of items) ≡ true) ⊎ (has_open t qs ≡ true)
        → has_open t ps' ≡ true)
    → then_all (upsert_item now ticket values ps) (upsert_all now items) ≡ some ps'
    → (contains_ticket t (with_ticket ticket (tickets_of items)) ≡ true) ⊎ (has_open t ps ≡ true)
    → has_open t ps' ≡ true
unfolding upsert_item then_all with_ticket contains_ticket
item_then_all-has_open t now none values items ps later e h = later ps e h
item_then_all-has_open t now (some u) none items ps later e h = absurd cc
item_then_all-has_open t now (some u) (some v) items ps later e h =
    let here = upsert_one-has_open t u now v ps in
    elim (Bool-cases (u == t)) [
      | inl same ↦ later (upsert_one now u v ps) e (inr (here (inl same)))
      | inr differ ↦ elim h [
        | inl c ↦ later (upsert_one now u v ps) e (inl (rw differ at c))
        | inr o ↦ later (upsert_one now u v ps) e (inr (here (inr o)))
      ]
    ]

upsert_all-has_open :
    (t now : ℕ) (items : List Item) (ps : List Position) {ps' : List Position}
    → upsert_all now items ps ≡ some ps'
    → (contains_ticket t (tickets_of items) ≡ true) ⊎ (has_open t ps ≡ true)
    → has_open t ps' ≡ true
unfolding upsert_all tickets_of contains_ticket
upsert_all-has_open t now [] ps e h = ground arith
upsert_all-has_open t now (item ∷ items) ps e h =
    item_then_all-has_open t now item.ticket item.values items ps
      (λ qs. upsert_all-has_open t now items qs) e h

-- After a snapshot that is not empty was taken over, the open positions of the broker are those of
-- the snapshot: a ticket has an open row exactly if an item carries it.
pub upsert_positions-has_open :
    (t now : ℕ) (payload : List Item) (ps : List Position) {ps' : List Position}
    → is_empty payload ≡ false
    → upsert_positions now payload ps ≡ some ps'
    → has_open t ps' ≡ contains_ticket t (tickets_of payload)
unfolding upsert_positions closed
upsert_positions-has_open t now payload ps {ps'} n e =
    elim (Option-cases (upsert_all now payload ps)) [
      | inl none_ ↦ absurd (ground (arith, n, none_))
      | inr (mid, d) ↦
          let same : close_gone (tickets_of payload) mid ≡ ps' = ground (arith, n, d) in
          rw (sym same, close_gone-has_open t (tickets_of payload) mid)
            (elim (Bool-cases (contains_ticket t (tickets_of payload))) [
              | inl c ↦ ground (arith, c, upsert_all-has_open t now payload ps d (inl c))
              | inr c ↦ ground (arith, c)
            ])
    ]

-- The rows that are not the broker's.
unfoldable pub from_fills : List Position → List Position
from_fills [] = []
from_fills (p ∷ positions) =
    let rest = from_fills positions in elim p.mt5_ticket [ none ↦ p ∷ rest | some t ↦ rest ]

upsert_one-from_fills :
    (now u : ℕ) (v : Values) (ps : List Position)
    → from_fills (upsert_one now u v ps) ≡ from_fills ps
unfolding from_fills upsert_one is_ticket updated added
upsert_one-from_fills now u v [] = refl
upsert_one-from_fills now u v (p ∷ ps) = elim (Option-cases p.mt5_ticket) [
  | inl e ↦ ground (arith, e, upsert_one-from_fills now u v ps)
  | inr (w, e) ↦ ground (arith, e, upsert_one-from_fills now u v ps)
]

close_gone-from_fills :
    (tickets : List ℕ) (ps : List Position) → from_fills (close_gone tickets ps) ≡ from_fills ps
unfolding from_fills close_gone is_gone
close_gone-from_fills tickets [] = refl
close_gone-from_fills tickets (p ∷ ps) = elim (Option-cases p.mt5_ticket) [
  | inl e ↦ ground (arith, e, close_gone-from_fills tickets ps)
  | inr (w, e) ↦ ground (arith, e, close_gone-from_fills tickets ps)
]

item_then_all-from_fills :
    (now : ℕ) (ticket : Option ℕ) (values : Option Values) (items : List Item) (ps : List Position)
    {ps' : List Position}
    → ((qs : List Position) → upsert_all now items qs ≡ some ps' → from_fills ps' ≡ from_fills qs)
    → then_all (upsert_item now ticket values ps) (upsert_all now items) ≡ some ps'
    → from_fills ps' ≡ from_fills ps
unfolding upsert_item then_all
item_then_all-from_fills now none values items ps later e = later ps e
item_then_all-from_fills now (some u) none items ps later e = absurd cc
item_then_all-from_fills now (some u) (some v) items ps later e =
    later (upsert_one now u v ps) e ∙ upsert_one-from_fills now u v ps

upsert_all-from_fills :
    (now : ℕ) (items : List Item) (ps : List Position) {ps' : List Position}
    → upsert_all now items ps ≡ some ps'
    → from_fills ps' ≡ from_fills ps
unfolding upsert_all
upsert_all-from_fills now [] ps e = ground arith
upsert_all-from_fills now (item ∷ items) ps e =
    item_then_all-from_fills now item.ticket item.values items ps
      (λ qs. upsert_all-from_fills now items qs) e

-- A snapshot leaves the positions of fills, which have no ticket, as they are and in their order.
pub upsert_positions-from_fills :
    (now : ℕ) (payload : List Item) (ps : List Position) {ps' : List Position}
    → upsert_positions now payload ps ≡ some ps'
    → from_fills ps' ≡ from_fills ps
unfolding upsert_positions closed
upsert_positions-from_fills now payload ps {ps'} e = elim (Bool-cases (is_empty payload)) [
  | inl n ↦ ap from_fills (ground (arith, n))
  | inr n ↦ elim (Option-cases (upsert_all now payload ps)) [
    | inl none_ ↦ absurd (ground (arith, n, none_))
    | inr (mid, d) ↦
        let same : close_gone (tickets_of payload) mid ≡ ps' = ground (arith, n, d) in
        ap from_fills (sym same)
        ∙ close_gone-from_fills (tickets_of payload) mid
        ∙ upsert_all-from_fills now payload ps d
  ]
]
