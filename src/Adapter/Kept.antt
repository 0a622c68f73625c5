-- ===== src/Adapter/Kept.antt =====
-- The reducer stays that of its market.
use liqvera.Prelude.{◌≡◌, Bool, Option, Result, ok, err}
use liqvera.Prelude.Int.{ℤ}
use liqvera.Prelude.Action.{Action, Keeps, modify-Keeps, keeping, modify}
use liqvera.Python.{Str, Raised, Unicode}
use liqvera.Json.{Members}
use liqvera.Json.Builtins.{Builtins}
use liqvera.Market.{OrderBookSnapshot}
use liqvera.Capture.Reducer.{
  LighterBookReducer, on_bids, on_asks, Levels, snapshot, timed_snapshot, start, follow, update,
  gap, step, apply, closing,
}

-- The two fields that no method sets
pub record IsFor (symbol : Str) (index : ℤ) (r : LighterBookReducer) : Type 0 where
  pub symbol_kept : r.symbol ≡ symbol
  pub index_kept : r.market_index ≡ index

module _ (u : Unicode) (b : Builtins) (symbol : Str) (index received : ℤ) (message : Members) where
  sides-Keeps :
      (side : Action Levels Raised (Unit {0}))
      → Keeps (IsFor symbol index) (on_bids side) × Keeps (IsFor symbol index) (on_asks side)
  sides-Keeps side = (
    record { keeps = λ s i. record { symbol_kept = i.symbol_kept; index_kept = i.index_kept } },
    record { keeps = λ s i. record { symbol_kept = i.symbol_kept; index_kept = i.index_kept } },
  )

  snapshot-Keeps : Keeps (IsFor symbol index) (snapshot received)
  unfolding snapshot
  snapshot-Keeps = record { keeps = λ s i. i }

  set :
      (bids asks : LighterBookReducer → Levels) (nonce timestamp : LighterBookReducer → Option ℤ)
      (unavailable : LighterBookReducer → Bool)
      → Keeps {E = Raised} (IsFor symbol index) (
          modify (λ r. record {
            symbol = r.symbol;
            market_index = r.market_index;
            bids = bids r;
            asks = asks r;
            nonce = nonce r;
            timestamp_ms = timestamp r;
            unavailable = unavailable r;
          }))
  set bids asks nonce timestamp unavailable =
      modify-Keeps _ (λ r i. record { symbol_kept = i.symbol_kept; index_kept = i.index_kept })

  timed_snapshot-Keeps : Keeps (IsFor symbol index) (timed_snapshot u b received message)
  unfolding timed_snapshot
  timed_snapshot-Keeps = search (keeping, snapshot-Keeps, set) depth 12

  start-Keeps : (book : Members) → Keeps (IsFor symbol index) (start u b received message book)
  unfolding start
  start-Keeps book = search (keeping, timed_snapshot-Keeps, set) depth 24

  follow-Keeps :
      (book : Members) (next : ℤ)
      → Keeps (IsFor symbol index) (follow u b received message book next)
  unfolding follow
  follow-Keeps book next =
      search (keeping, (sides-Keeps _).0, (sides-Keeps _).1, timed_snapshot-Keeps, set) depth 24

  gap-Keeps : Keeps (IsFor symbol index) gap
  gap-Keeps = record {
    keeps = λ r i. record { symbol_kept = i.symbol_kept; index_kept = i.index_kept };
  }

  update-Keeps : (book : Members) → Keeps (IsFor symbol index) (update u b received message book)
  unfolding update
  update-Keeps book = search (keeping, gap-Keeps, follow-Keeps) depth 24

  step-Keeps : Keeps (IsFor symbol index) (step u b received message)
  unfolding step
  step-Keeps = search (keeping, start-Keeps, update-Keeps) depth 24

  -- `apply` sets neither the symbol nor the index of the market, whatever it raises.
  pub apply-Keeps : Keeps (IsFor symbol index) (apply u b received message)
  unfolding apply
  apply-Keeps = record {
    keeps = λ r i. closing-IsFor (step u b received message r) (step-Keeps.keeps r i);
  }
    where
      closing-IsFor :
          (x : LighterBookReducer × Result Raised (Option OrderBookSnapshot))
          → IsFor symbol index x.0
          → IsFor symbol index (closing x).0
      closing-IsFor (r, ok s) i = i
      closing-IsFor (r, err e) i = record { symbol_kept = i.symbol_kept; index_kept = i.index_kept }
