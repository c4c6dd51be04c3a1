-- ===== src/Layers/MessageLayer/Purge.antt =====
-- message_layer.py: purge.
use bubot_co_ap.Prelude.{ℕ, ◌+◌, Bool, ◌||◌, List, [], ◌∷◌, ltb, if◌then◌else◌}
use bubot_co_ap.Outcome.{Outcome, returns, type_error, or_raise, ◌>>=◌}
use bubot_co_ap.Transaction.{Transaction}
use bubot_co_ap.Layers.Table.{Table, Key, int, octets, nothing}
use bubot_co_ap.Layers.Block.{BlockLayer}
use bubot_co_ap.Layers.MessageLayer.{MessageLayer}
use bubot_co_ap.Layers.Block.Sending as BlockSending

-- `transaction.timestamp + timeout_time < now or transaction.completed`
unfoldable pub is_over : Transaction → ℕ → ℕ → Outcome Bool
is_over t timeout now = do
  timestamp ← or_raise t.timestamp type_error
  returns (ltb (timestamp + timeout) now || t.completed)

-- One loop of purge: what stays, and the keys that go.
unfoldable pub purge_table : (ℕ → Transaction) → ℕ → ℕ → Table ℕ → Outcome (Table ℕ × List Key)
unfolding is_over
purge_table cell timeout now [] = returns ([], [])
purge_table cell timeout now ((k, c) ∷ table) = do
  over ← is_over (cell c) timeout now
  (kept, gone) ← purge_table cell timeout now table
  returns (if over then (kept, k ∷ gone) else ((k, c) ∷ kept, gone))

-- block_layer.purge of every key that goes; its table has no key but hashes.
unfoldable pub purge_blocks : BlockLayer → List Key → BlockLayer
purge_blocks blocks [] = blocks
purge_blocks blocks (int n ∷ keys) = purge_blocks (BlockSending.purge blocks n) keys
purge_blocks blocks (octets t ∷ keys) = purge_blocks blocks keys
purge_blocks blocks (nothing ∷ keys) = purge_blocks blocks keys

unfoldable pub purge : MessageLayer → BlockLayer → ℕ → ℕ → Outcome (MessageLayer × BlockLayer)
unfolding purge_table purge_blocks
purge l blocks timeout now = do
  (kept, gone) ← purge_table l.cell timeout now l.transactions
  (kept_token, gone_token) ← purge_table l.cell timeout now l.transactions_token
  returns (
    record l { transactions = kept; transactions_token = kept_token },
    purge_blocks blocks gone_token,
  )
