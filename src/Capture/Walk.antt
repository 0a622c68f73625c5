-- ===== src/Capture/Walk.antt =====
-- The ways through `LighterBookReducer.apply`: what holds behind each of them holds behind the method.
use liqvera.Prelude.{
  ◌≡◌, refl, true, not, ◌||◌, ◌++◌, Option, none, some, Result, ok, err, raise_if,
}
use liqvera.Prelude.Int.{ℤ, leb_ℤ}
use liqvera.Prelude.Action.{
  Leads, after, >>=-Leads, call-Leads, modify-Leads, self-Leads, if-Leads, ◌>>=◌, return,
}
use liqvera.Python.{Raised, Unicode, value_error, codes, str_eq}
use liqvera.Json.{Members, get}
use liqvera.Json.Builtins.{Builtins}
use liqvera.Market.{OrderBookSnapshot}
use liqvera.Reconstruction.Epochs.{same_nonce}
use liqvera.Capture.Fields.{integer_of, string_of, object_of}
use liqvera.Capture.Reducer.{
  LighterBookReducer, snapshot_of, timed_snapshot, snapshot, start, follow, update, gap, step,
  str_int,
}

-- A property of the object and the outcome that holds on every way, from `r`.
pub record IsWay (received : ℤ) (r : LighterBookReducer)
    (Q : LighterBookReducer → Result Raised (Option OrderBookSnapshot) → Type 0) : Type 0 where
  pub raising : (t : LighterBookReducer) (e : Raised) → Q t (err e)
  pub skipping : Q r (ok none)
  pub breaking : (t : LighterBookReducer) → t.unavailable ≡ true → Q t (ok none)
  pub giving :
      (t : LighterBookReducer) (s : OrderBookSnapshot)
      → snapshot_of received t t.unavailable t.nonce t.timestamp_ms ≡ ok s
      → Q t (ok (some s))

module _ (r : LighterBookReducer) (u : Unicode) (b : Builtins) (received : ℤ) (message : Members)
    {Q : LighterBookReducer → Result Raised (Option OrderBookSnapshot) → Type 0}
    (way : IsWay received r Q) where
  given-Leads :
      (t : LighterBookReducer) (x : Result Raised OrderBookSnapshot)
      → snapshot_of received t t.unavailable t.nonce t.timestamp_ms ≡ x
      → Leads Q (after (λ (s : OrderBookSnapshot). return (some s)) (t, x))
  given-Leads t (ok s) h = record { holds = way.giving t s h }
  given-Leads t (err e) h = record { holds = way.raising t e }

  snapshot-Leads :
      (t : LighterBookReducer)
      → Leads Q ((snapshot received >>= λ (s : OrderBookSnapshot). return (some s)) t)
  unfolding snapshot ◌>>=◌
  snapshot-Leads t =
      given-Leads t (snapshot_of received t t.unavailable t.nonce t.timestamp_ms) refl

  timed_snapshot-Leads : (t : LighterBookReducer) → Leads Q (timed_snapshot u b received message t)
  unfolding timed_snapshot
  timed_snapshot-Leads t =
      call-Leads way.raising (integer_of (get (codes "timestamp") message)) _ t (λ timestamp.
        modify-Leads _ _ t (snapshot-Leads (record t { timestamp_ms = some timestamp })))

  start-Leads :
      (book : Members) (t : LighterBookReducer) → Leads Q (start u b received message book t)
  unfolding start
  start-Leads book t = >>=-Leads way.raising _ _ t (λ bids t0. modify-Leads _ _ t0 (
      >>=-Leads way.raising _ _ _ (λ asks t1.
        modify-Leads _ _ t1 (
          >>=-Leads way.raising _ _ _ (λ nonce t2. modify-Leads _ _ t2 (timed_snapshot-Leads _))))))

  follow-Leads :
      (book : Members) (next : ℤ) (t : LighterBookReducer)
      → Leads Q (follow u b received message book next t)
  unfolding follow
  follow-Leads book next t = >>=-Leads way.raising _ _ t (λ done t0.
      >>=-Leads way.raising _ _ t0 (λ done t1. modify-Leads _ _ t1 (timed_snapshot-Leads _)))

  update-Leads :
      (book : Members) (t : LighterBookReducer) → Leads Q (update u b received message book t)
  unfolding update
  update-Leads book t =
      call-Leads way.raising (integer_of (get (codes "begin_nonce") book)) _ t (λ begin.
        call-Leads way.raising (integer_of (get (codes "nonce") book)) _ t (λ next. self-Leads _ t (
          if-Leads (not (same_nonce begin t.nonce) || leb_ℤ next begin) gap
            (follow u b received message book next) t (λ e. record { holds = way.breaking _ refl })
            (λ e. follow-Leads book next t))))

  pub step-Leads : Leads Q (step u b received message r)
  unfolding step
  step-Leads = call-Leads way.raising (string_of u (get (codes "channel") message)) _ r (λ channel.
      self-Leads _ r (
        call-Leads way.raising
          (raise_if (not (str_eq channel (codes "order_book:" ++ str_int r.market_index)))
            value_error)
          _ r
          (λ same.
            call-Leads way.raising (object_of (get (codes "order_book") message)) _ r (λ book.
              call-Leads way.raising (string_of u (get (codes "type") message)) _ r (λ kind.
                if-Leads (str_eq kind (codes "subscribed/order_book")) _ _ r
                  (λ e. start-Leads book r)
                  (λ e.
                    if-Leads (r.unavailable || not (str_eq kind (codes "update/order_book"))) _ _ r
                      (λ k. record { holds = way.skipping }) (λ k. update-Leads book r)))))))
