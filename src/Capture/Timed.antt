-- ===== src/Capture/Timed.antt =====
-- An available book can be read.
use liqvera.Prelude.{◌≡◌, false, List, [], ◌∷◌, Option, some, Result}
use liqvera.Prelude.Int.{ℤ}
use liqvera.Python.{Str, Raised, Unicode}
use liqvera.Json.{Members}
use liqvera.Json.Builtins.{Builtins}
use liqvera.Market.{OrderBookSnapshot}
use liqvera.Capture.Reducer.{LighterBookReducer, lighter_book_reducer, run}
use liqvera.Capture.Available.{Emits, closed, skipped, broken, emitted, IsClosed, apply-Emits}

-- An available book has its nonce and its time.
pub record IsTimed (r : LighterBookReducer) : Type 0 where
  pub timed :
      r.unavailable ≡ false
      → (nonce timestamp : ℤ) × (r.nonce ≡ some nonce) × (r.timestamp_ms ≡ some timestamp)

Emits-IsTimed :
    (r t : LighterBookReducer) (x : Result Raised (Option OrderBookSnapshot))
    → Emits IsClosed r t x
    → IsTimed r
    → IsTimed t
Emits-IsTimed r t x (closed k) i = record { timed = λ h. cc }
Emits-IsTimed r t x skipped i = i
Emits-IsTimed r t x (broken k) i = record { timed = λ h. cc }
Emits-IsTimed r t x (emitted n ts a e f c d g h) i = record { timed = λ k. (n, ts, e, f) }

module _ (u : Unicode) (b : Builtins) where
  run-preserves :
      (messages : List (ℤ × Members)) (r : LighterBookReducer)
      → IsTimed r
      → IsTimed (run u b r messages)
  unfolding run
  run-preserves [] r i = i
  run-preserves ((received, message) ∷ messages) r i =
      run-preserves messages _ (Emits-IsTimed r _ _ (apply-Emits u b received message r) i)

  -- After any sequence of messages, exceptions among them, a fresh reducer whose book is available
  -- has a nonce and a timestamp, so that snapshot does not raise for want of one.
  pub run-IsTimed :
      (symbol : Str) (market_index : ℤ) (messages : List (ℤ × Members))
      → IsTimed (run u b (lighter_book_reducer symbol market_index) messages)
  run-IsTimed symbol market_index messages =
      run-preserves messages (lighter_book_reducer symbol market_index) (record { timed = λ h. cc })
