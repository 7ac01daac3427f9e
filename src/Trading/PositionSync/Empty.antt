-- ===== src/Trading/PositionSync/Empty.antt =====
-- Cycles of position_sync.py, and the snapshots that have no position.
use mathlib.Core.List.{append-nil}
use mathlib.Core.Path.{subst}
use lumine_hedge_fund.Prelude.{
  Bool-cases, inl, inr, ℕ, ◌≡◌, refl, sym, ap, ◌∙◌, Bool, true, false, ◌&&◌, Option, none, some,
  List, [], ◌∷◌, ◌++◌, is_empty, arith,
}
use lumine_hedge_fund.Trading.PositionSync.{
  Values, Item, Position, State, contains_ticket, tickets_of, upsert_item, then_all, upsert_all,
  closed, upsert_positions, committed, newest, consume, sync_once,
}
use lumine_hedge_fund.Trading.PositionSync.Snapshot.{has_open, upsert_positions-has_open}

-- Cycles, each after the broker pushed snapshots on top of those that are there.
unfoldable pub cycles : ℕ → List (List (Option (List Item))) → State → State
unfolding sync_once
cycles now [] s = s
cycles now (pushed ∷ later) s =
    cycles now later (sync_once now (record s { snapshots = pushed ++ s.snapshots }))

-- The numbers of an item are decimals, where it has a ticket.
unfoldable pub is_readable : Option ℕ → Option Values → Bool
is_readable none values = true
is_readable (some ticket) none = false
is_readable (some ticket) (some v) = true

unfoldable pub are_readable : List Item → Bool
unfolding is_readable
are_readable [] = true
are_readable (item ∷ items) = is_readable item.ticket item.values && are_readable items

abbrev pub IsReadable : Option (List Item) → Type 0
IsReadable none = Unit
IsReadable (some items) = are_readable items ≡ true

abbrev pub AllReadable : List (List (Option (List Item))) → Type 0
AllReadable [] = Unit
AllReadable (pushed ∷ later) = IsReadable (newest pushed) × AllReadable later

-- The listing of a snapshot, where it lists a position.
unfoldable pub listing : Option (List Item) → Option (List Item)
listing none = none
listing (some []) = none
listing (some (item ∷ items)) = some (item ∷ items)

unfoldable pub or_listing : Option (List Item) → Option (List Item) → Option (List Item)
or_listing none earlier = earlier
or_listing (some items) earlier = some items

-- The last listing of the pushes.
unfoldable pub last_listing : List (List (Option (List Item))) → Option (List Item)
unfolding or_listing listing newest
last_listing [] = none
last_listing (pushed ∷ later) = or_listing (last_listing later) (listing (newest pushed))

-- Whether a listing has the ticket; without one, what was.
unfoldable pub shows : ℕ → Option (List Item) → Bool → Bool
unfolding contains_ticket tickets_of
shows t none was = was
shows t (some items) was = contains_ticket t (tickets_of items)

shows-or_listing :
    (t : ℕ) (later earlier : Option (List Item)) (was : Bool)
    → shows t later (shows t earlier was) ≡ shows t (or_listing later earlier) was
unfolding shows or_listing
shows-or_listing t none earlier was = refl
shows-or_listing t (some items) earlier was = refl

item_then_all-some :
    (now : ℕ) (ticket : Option ℕ) (values : Option Values) (items : List Item) (ps : List Position)
    → is_readable ticket values ≡ true
    → ((qs : List Position) → (final : List Position) × (upsert_all now items qs ≡ some final))
    → (final : List Position) × (then_all (upsert_item now ticket values ps) (upsert_all now items)
        ≡ some final)
unfolding is_readable upsert_item then_all
item_then_all-some now none values items ps h later = later ps
item_then_all-some now (some t) none items ps h later = absurd cc
item_then_all-some now (some t) (some v) items ps h later = later _

upsert_all-some :
    (now : ℕ) (items : List Item) (ps : List Position)
    → are_readable items ≡ true
    → (final : List Position) × (upsert_all now items ps ≡ some final)
unfolding upsert_all are_readable
upsert_all-some now [] ps h = (ps, refl)
upsert_all-some now (item ∷ items) ps h =
    item_then_all-some now item.ticket item.values items ps (ground arith)
      (λ qs. upsert_all-some now items qs (ground arith))

consume_lem :
    (t now : ℕ) (o : Option (List Item)) (s : State)
    → IsReadable o
    → ((consume now o s).snapshots ≡ [])
      × (has_open t (consume now o s).positions ≡ shows t (listing o) (has_open t s.positions))
unfolding consume committed upsert_positions closed shows listing
consume_lem t now none s h = (refl, refl)
consume_lem t now (some []) s h = (refl, refl)
consume_lem t now (some (item ∷ items)) s h =
    let (final, e) = upsert_all-some now (item ∷ items) s.positions h in
    let taken = upsert_positions-has_open t now (item ∷ items) s.positions refl (rw e refl) in
    rw e (refl, taken)

is_empty-Nil : (xs : List (Option (List Item))) → is_empty xs ≡ true → xs ≡ []
is_empty-Nil [] h = refl
is_empty-Nil (x ∷ xs) h = absurd cc

sync_once_lem :
    (t now : ℕ) (s : State)
    → IsReadable (newest s.snapshots)
    → ((sync_once now s).snapshots ≡ [])
      × (has_open t (sync_once now s).positions
          ≡ shows t (listing (newest s.snapshots)) (has_open t s.positions))
unfolding sync_once newest listing shows
sync_once_lem t now s h = elim (Bool-cases (is_empty s.snapshots)) [
  | inr e ↦ rw e (consume_lem t now (newest s.snapshots) s h)
  | inl e ↦
      let n = is_empty-Nil s.snapshots e in
      let nothing =
        ap
          (λ (xs : List (Option (List Item))).
            shows t (listing (newest xs)) (has_open t s.positions))
          n in
      rw e (n, sym nothing)
]

-- With no snapshot left from before, and after cycles whose newest valid snapshots can be read, a ticket has an open row exactly if the
-- last snapshot that is not empty lists it, however many empty ones came after that. With no such
-- snapshot, exactly if it had one before: a broker that has no open position closes no row.
pub cycles-has_open :
    (t now : ℕ) (pushes : List (List (Option (List Item)))) (s : State)
    → AllReadable pushes
    → s.snapshots ≡ []
    → has_open t (cycles now pushes s).positions
      ≡ shows t (last_listing pushes) (has_open t s.positions)
unfolding cycles last_listing
cycles-has_open t now [] s h e = unfold shows in refl
cycles-has_open t now (pushed ∷ later) s h e =
    let s' : State = record s { snapshots = pushed ++ s.snapshots } in
    let same : newest s'.snapshots ≡ newest pushed =
      ap newest (ap (λ (xs : List (Option (List Item))). pushed ++ xs) e ∙ append-nil pushed) in
    let (nothing, taken) = sync_once_lem t now s' (subst IsReadable (sym same) h.0) in
    let here =
      taken ∙ ap (λ (o : Option (List Item)). shows t (listing o) (has_open t s.positions)) same in
    cycles-has_open t now later (sync_once now s') h.1 nothing
    ∙ ap (shows t (last_listing later)) here
    ∙ shows-or_listing t (last_listing later) (listing (newest pushed)) (has_open t s.positions)
