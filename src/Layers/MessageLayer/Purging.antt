-- ===== src/Layers/MessageLayer/Purging.antt =====
-- message_layer.py, purge: what stays of a well-formed layer.
use bubot_co_ap.Prelude.{
  ℕ, ◌+◌, ◌≡◌, refl, Bool, true, false, ◌||◌, not, some, none, List, [], ◌∷◌, ltb, if◌then◌else◌,
}
use bubot_co_ap.Outcome.{Outcome, returns}
use bubot_co_ap.Transaction.{Transaction}
use bubot_co_ap.Layers.Table.{Table, Key}
use bubot_co_ap.Layers.Block.{BlockLayer}
use bubot_co_ap.Layers.MessageLayer.{MessageLayer}
use bubot_co_ap.Layers.MessageLayer.Purge.{is_over, purge_table, purge_blocks, purge}
use bubot_co_ap.Layers.MessageLayer.Invariant.{IsSound, IsWellFormed}

-- The transaction has lived longer than the timeout, or is complete.
unfoldable pub is_past : ℕ → ℕ → Transaction → Bool
is_past timeout now t = elim t.timestamp [
  | none ↦ false
  | some made ↦ ltb (made + timeout) now || t.completed
]

-- The entries whose transaction is, or is not, past.
unfoldable pub entries : (ℕ → Bool) → Table ℕ → Table ℕ
entries wanted [] = []
entries wanted ((k, c) ∷ table) =
    let rest = entries wanted table in if wanted c then (k, c) ∷ rest else rest

unfoldable pub keys : Table ℕ → List Key
keys [] = []
keys ((k, c) ∷ table) = k ∷ keys table

is_over-is_past :
    (t : Transaction) (timeout now : ℕ)
    → IsSound t
    → is_over t timeout now ≡ returns (is_past timeout now t)
unfolding is_over is_past
is_over-is_past t timeout now h = rw h.stamped.1 refl

purge_table-entries :
    (cell : ℕ → Transaction) (timeout now : ℕ) (table : Table ℕ)
    → ((i : ℕ) → IsSound (cell i))
    → purge_table cell timeout now table
      ≡ returns (
        entries (λ c. not (is_past timeout now (cell c))) table,
        keys (entries (λ c. is_past timeout now (cell c)) table),
      )
unfolding purge_table entries keys
purge_table-entries cell timeout now [] h = refl
purge_table-entries cell timeout now ((k, c) ∷ table) h =
    rw (is_over-is_past (cell c) timeout now (h c), purge_table-entries cell timeout now table h)
      (sorted (is_past timeout now (cell c)) _ _)
  where
    sorted :
        (b : Bool) (kept over : Table ℕ)
        → Path
            (Outcome (Table ℕ × List Key))
            (returns (if b then (kept, k ∷ keys over) else ((k, c) ∷ kept, keys over)))
            (returns
              (if not b then (k, c) ∷ kept else kept, keys (if b then (k, c) ∷ over else over)))
    sorted true kept over = refl
    sorted false kept over = refl

-- Of a well-formed layer: purge returns. It leaves in the tables of what was received the entries whose
-- transaction is not past, in their order, takes from the block layer the keys of the others in the
-- table by token, and changes nothing else.
pub purge-entries :
    (l : MessageLayer) (blocks : BlockLayer) (timeout now : ℕ)
    → IsWellFormed l
    → purge l blocks timeout now
      ≡ returns (
        record l {
          transactions = entries (λ c. not (is_past timeout now (l.cell c))) l.transactions;
          transactions_token =
              entries (λ c. not (is_past timeout now (l.cell c))) l.transactions_token;
        },
        purge_blocks blocks
            (keys (entries (λ c. is_past timeout now (l.cell c)) l.transactions_token)),
      )
unfolding purge
purge-entries l blocks timeout now h =
    rw
      (
        purge_table-entries l.cell timeout now l.transactions h.settled,
        purge_table-entries l.cell timeout now l.transactions_token h.settled,
      )
      refl
