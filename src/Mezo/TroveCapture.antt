-- ===== src/Mezo/TroveCapture.antt =====
-- The capture of an observation of the Troves: `_address`, `verify_trove_capture` and the first half
-- of `_verify` in packages/public-capture/src/liqvera_public_capture/public_adapters/mezo_troves.py.
use liqvera.Prelude.{
  ℕ, ◌+◌, ◌*◌, Bool, true, false, not, ◌&&◌, List, [], ◌∷◌, ◌++◌, Option, none, some, Result, ok,
  ◌>>=◌, ◌>>◌, leb, ◌==◌, if◌then◌else◌, length, all,
}
use liqvera.Prelude.Int.{ℤ, pos, leb_ℤ}
use liqvera.Python.{Str, Raised, codes, str_eq, drop, starts_with, is_hex}
use liqvera.Json.{
  Json, Items, no_items, item, Members, find, get, keys, has_keys, is_text, as_text, as_object,
  as_array, member_of,
}
use liqvera.Mezo.{
  Texts, require, given, at, text_at, is_hex_digit, take, is_block, is_hash, Calls, result_at,
}
use liqvera.Mezo.Dex.{rpc_url, same_block, Header, length_items}
use liqvera.Mezo.Troves.{trove_manager, sorted_troves, price_feed, nobody, queue_limit}
use liqvera.Mezo.Queue.{Report, read_report}

-- `0x[0-9a-fA-F]{40}`
unfoldable pub is_address : Str → Bool
unfolding drop
is_address s = starts_with (codes "0x") s && length s == 42 && all is_hex_digit (drop 2 s)

-- `_address(value)`
unfoldable pub address_of_text : Texts → Json → Result Raised Str
address_of_text t raw = do
  s ← given (as_text raw)
  require (is_address s)
  require (not (str_eq (t.lower s) nobody))
  ok (t.lower s)

-- The selectors of a contract, with the number of their arguments
abbrev pub Selectors : Type 0
Selectors = List (Str × ℕ)

-- `MANAGER_SELECTORS`
abbrev pub manager_selectors : Selectors
manager_selectors =
    (codes "0x794e5724", 0)
    ∷ (codes "0x5733d58f", 0)
    ∷ (codes "0xa20baee6", 0)
    ∷ (codes "0x7af110ba", 0)
    ∷ (codes "0x49eefeee", 0)
    ∷ (codes "0xd9a72444", 1)
    ∷ (codes "0xb91af97c", 1)
    ∷ (codes "0x21e37801", 1)
    ∷ (codes "0xd293c710", 2)
    ∷ (codes "0xb82f263d", 1)
    ∷ (codes "0x795d26c3", 0)
    ∷ (codes "0x887105d3", 0)
    ∷ []

-- `SORTED_SELECTORS`
abbrev pub sorted_selectors : Selectors
sorted_selectors =
    (codes "0xde8fa431", 0)
    ∷ (codes "0x4d622831", 0)
    ∷ (codes "0x1e223143", 0)
    ∷ (codes "0xb72703ac", 1)
    ∷ (codes "0x765e0159", 1)
    ∷ (codes "0x5dbe47e8", 1)
    ∷ []

unfoldable pub argument_count : Str → Selectors → Option ℕ
argument_count selector [] = none
argument_count selector ((s, n) ∷ selectors) =
    let later = argument_count selector selectors in if str_eq s selector then some n else later

-- `allowed[target]`
unfoldable pub selectors_of : Texts → Str → Selectors
selectors_of t target =
    if str_eq target (t.lower trove_manager)
    then manager_selectors
    else if str_eq target (t.lower sorted_troves)
    then sorted_selectors
    else if str_eq target (t.lower price_feed)
    then (codes "0x0fdb11cf", 0) ∷ []
    else []

-- `0x[0-9a-f]+`
abbrev pub is_call_data : Str → Bool
is_call_data data' =
    starts_with (codes "0x") data' && leb 3 (length data') && all is_hex (drop 2 data')

abbrev pub is_fresh : {A : Type 0} → Option A → Bool
is_fresh none = true
is_fresh (some a) = false

-- The result of a response
unfoldable pub result_of : Json → Result Raised Json
result_of response = do
  fields ← given (as_object response)
  require (is_text (codes "2.0") (get (codes "jsonrpc") fields))
  require (not (member_of (codes "error") (keys fields)))
  given (find (codes "result") fields)

-- One round of the loop over the calls
unfoldable pub add_call : Texts → Str → Calls Json → Json → Result Raised (Calls Json)
add_call t block calls raw = do
  fields ← given (as_object raw)
  require (has_keys (codes "to" ∷ codes "data" ∷ codes "block" ∷ codes "response" ∷ []) [] fields)
  target ← address_of_text t (get (codes "to") fields)
  said ← given (as_text (get (codes "data") fields))
  let data' = t.lower said
  require (is_text block (get (codes "block") fields))
  arguments ← given (argument_count (take 10 data') (selectors_of t target))
  require (length data' == 10 + 64 * arguments && is_call_data data')
  require (is_fresh (result_at target data' calls))
  result ← result_of (get (codes "response") fields)
  ok (calls ++ ((target, data'), result) ∷ [])

unfoldable pub add_calls : Texts → Str → Calls Json → Items → Result Raised (Calls Json)
add_calls t block calls no_items = ok calls
add_calls t block calls (item raw rest) = do
  later ← add_call t block calls raw
  add_calls t block later rest

abbrev pub is_natural : ℤ → Bool
is_natural z = leb_ℤ (pos 0) z

-- The block of the capture, the same before and after
unfoldable pub read_header : Texts → Members → Result Raised Header
read_header t capture = do
  block ← given (find (codes "block") capture)
  header ← at (codes "result") block
  number ← text_at (codes "number") header
  require (is_block number)
  hash ← text_at (codes "hash") header
  require (is_hash hash)
  stamp ← text_at (codes "timestamp") header
  block_after ← given (find (codes "block_after") capture)
  after ← at (codes "result") block_after
  same_block number hash stamp after
  timestamp ← given (t.int_16 stamp)
  require (is_natural timestamp)
  ok (record { number = number; hash = hash; timestamp = timestamp })

-- What is verified, with its block and the borrower as they were written
pub record VerifiedTrove : Type 0 where
  pub report : Report
  pub borrower : Str
  pub header : Header

-- `verify_trove_capture`
unfoldable pub verify_trove_capture : Texts → Json → Result Raised VerifiedTrove
verify_trove_capture t raw = do
  capture ← given (as_object raw)
  require (
      has_keys
        (codes "schema"
          ∷ codes "source"
          ∷ codes "borrower"
          ∷ codes "rpc_url"
          ∷ codes "chain"
          ∷ codes "block"
          ∷ codes "block_after"
          ∷ codes "calls"
          ∷ [])
        [] capture)
  require (is_text (codes "liqvera-mezo-trove-capture/v1") (get (codes "schema") capture))
  require (is_text (codes "mezo-troves:MUSD:testnet") (get (codes "source") capture))
  require (is_text rpc_url (get (codes "rpc_url") capture))
  chain_id ← at (codes "result") (get (codes "chain") capture)
  require (is_text (codes "0x7b7b") chain_id)
  written ← given (as_text (get (codes "borrower") capture))
  borrower ← address_of_text t (get (codes "borrower") capture)
  header ← read_header t capture
  items ← given (as_array (get (codes "calls") capture))
  require (leb 15 (length_items items) && leb (length_items items) (6 * queue_limit + 32))
  calls ← add_calls t header.number [] items
  report ← (read_report t calls borrower []).1
  ok (record { report = report; borrower = written; header = header })
