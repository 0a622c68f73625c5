-- ===== src/Mezo/Dex.antt =====
-- The offline check of a pool's observation: `router_calldata`, `decode_probe`, `_buy_input` and
-- `verify_capture` of packages/public-capture/src/liqvera_public_capture/public_adapters/mezo_dex.py.
use liqvera.Prelude.{
  ℕ, ◌+◌, ◌-◌, ◌*◌, ◌/◌, ◌^◌, Bool, true, false, not, ◌&&◌, List, [], ◌∷◌, ◌++◌, Option, none, some,
  Result, ok, err, ◌>>=◌, ◌>>◌, leb, ltb, ◌==◌, if◌then◌else◌, length, all,
}
use liqvera.Prelude.Int.{ℤ, pos, negsuc, leb_ℤ}
use liqvera.Python.{Str, Raised, value_error, codes, str_eq, drop, zeros}
use liqvera.Python.Digits.{value}
use liqvera.Json.{
  Json, Items, no_items, item, Members, find, get, keys, has_keys, is_text, as_text, as_object,
  as_array, member_of,
}
use liqvera.Mezo.{
  Texts, require, given, at, text_at, hex_value, take, words_of, word, address_word, is_block,
  is_hash, Calls, result_at,
}

abbrev pub rpc_url : Str
rpc_url = codes "https://rpc.test.mezo.org"

abbrev pub pool : Str
pool = codes "0xd16A5Df82120ED8D626a1a15232bFcE2366d6AA9"

abbrev pub router : Str
router = codes "0x9a1ff7FE3a0F69959A3fBa1F1e5ee18e1A9CD7E9"

abbrev pub factory : Str
factory = codes "0x4947243CC818b627A5D06d14C4eCe7398A23Ce1A"

abbrev pub musd : Str
musd = codes "0x118917a40FAF1CD7a13dB0Ef56C86De7973Ac503"

abbrev pub btc : Str
btc = codes "0x7b7C000000000000000000000000000000000000"

-- 2**256
abbrev pub uint256 : ℕ
uint256 = 2 ^ 256

-- BTC or MUSD: the two tokens that the callers pass
pub data Token : Type 0 where
  btc_token musd_token : Token

abbrev pub address_of : Token → Str
address_of btc_token = btc
address_of musd_token = musd

abbrev pub other : Token → Token
other btc_token = musd_token
other musd_token = btc_token

-- `router_calldata(amount, token_in, token_out)` of the two tokens, of an amount that it accepts
unfoldable pub router_calldata : Texts → ℕ → Token → Str
router_calldata t amount token_in =
    codes "0x5509a1ac"
    ++ word amount
    ++ word 64
    ++ word 1
    ++ address_word t (address_of token_in)
    ++ address_word t (address_of (other token_in))
    ++ word 0
    ++ address_word t factory

-- One round of the loop over `probe["calls"]`
unfoldable pub add_call : Texts → Str → Calls Json → Json → Result Raised (Calls Json)
add_call t block calls call = do
  at_block ← at (codes "block") call
  require (is_text block at_block)
  to ← text_at (codes "to") call
  data' ← text_at (codes "data") call
  require (is_new (result_at (t.lower to) (t.lower data') calls))
  ok (calls ++ ((t.lower to, t.lower data'), call) ∷ [])
  where
    is_new : Option Json → Bool
    is_new none = true
    is_new (some call) = false

unfoldable pub add_calls : Texts → Str → Calls Json → Items → Result Raised (Calls Json)
add_calls t block calls no_items = ok calls
add_calls t block calls (item call rest) = do
  later ← add_call t block calls call
  add_calls t block later rest

-- `words`, the function inside `decode_probe`
unfoldable pub words : Texts → Calls Json → Str → Str → ℕ → Result Raised (List ℕ)
words t calls address data' size = do
  call ← given (result_at (t.lower address) (t.lower data') calls)
  response ← at (codes "response") call
  fields ← given (as_object response)
  require (not (member_of (codes "error") (keys fields)))
  require (is_text (codes "2.0") (get (codes "jsonrpc") fields))
  result ← given (find (codes "result") fields)
  words_of result size

-- A list of one word, of three and of four
abbrev pub one_word : List ℕ → Result Raised ℕ
one_word (x ∷ []) = ok x
one_word _ = err value_error

abbrev pub three_words : List ℕ → Result Raised (ℕ × ℕ × ℕ)
three_words (x ∷ y ∷ z ∷ []) = ok (x, y, z)
three_words _ = err value_error

-- `router[:3] == [32, 2, amount]`, and `router[3]`
abbrev pub routed : ℕ → List ℕ → Result Raised ℕ
routed amount (a ∷ b ∷ c ∷ d ∷ []) = do require (a == 32 && b == 2 && c == amount); ok d
routed amount _ = err value_error

unfoldable pub word_at : Texts → Calls Json → Str → Str → Result Raised ℕ
word_at t calls address data' = do found ← words t calls address data' 1; one_word found

-- What `decode_probe` returns.
pub record Decoded : Type 0 where
  pub block_number : ℕ
  pub block_hash : Str
  pub block_timestamp : ℤ
  pub reserve_musd : ℕ
  pub reserve_btc : ℕ
  pub fee_bps : ℕ
  pub btc_decimals : ℕ
  pub pool_amount_out : ℕ
  pub router_amount_out : ℕ
  pub amount_in : ℕ

-- The block of an observation, its hash and its time
pub record Header : Type 0 where
  pub number : Str
  pub hash : Str
  pub timestamp : ℤ

unfoldable pub same_block : Str → Str → Str → Json → Result Raised (Unit {0})
same_block number hash stamp after = do
  n ← at (codes "number") after
  h ← at (codes "hash") after
  s ← at (codes "timestamp") after
  require (is_text number n && is_text hash h && is_text stamp s)

-- `if "block_after" in probe`
unfoldable pub check_after : Str → Str → Str → Option Json → Result Raised (Unit {0})
check_after number hash stamp none = ok tt
check_after number hash stamp (some raw) = do
  after ← at (codes "result") raw
  same_block number hash stamp after

-- The tests on the chain and the block
unfoldable pub read_header : Texts → Members → Result Raised Header
read_header t probe = do
  require (is_text rpc_url (get (codes "rpc_url") probe))
  chain ← given (find (codes "chain") probe)
  chain_id ← at (codes "result") chain
  require (is_text (codes "0x7b7b") chain_id)
  block ← given (find (codes "block") probe)
  header ← at (codes "result") block
  number ← text_at (codes "number") header
  require (is_block number)
  hash ← text_at (codes "hash") header
  require (is_hash hash)
  stamp ← text_at (codes "timestamp") header
  timestamp ← given (t.int_16 stamp)
  check_after number hash stamp (find (codes "block_after") probe)
  ok (record { number = number; hash = hash; timestamp = timestamp })

unfoldable pub length_items : Items → ℕ
length_items no_items = 0
length_items (item raw rest) = 1 + length_items rest

-- `calls`
unfoldable pub read_calls : Texts → Str → Members → Result Raised (Calls Json)
read_calls t block probe = do
  raw ← given (find (codes "calls") probe)
  items ← given (as_array raw)
  require (leb 8 (length_items items) && leb (length_items items) 64)
  add_calls t block [] items

-- `0 < amount < 2**256`
abbrev pub admitted : ℤ → Result Raised ℕ
admitted (pos n) = if ltb 0 n && ltb n uint256 then ok n else err value_error
admitted (negsuc n) = err value_error

-- Which reserve an input goes to
abbrev pub reserves : Token → ℕ → ℕ → ℕ × ℕ
reserves btc_token reserve_musd reserve_btc = (reserve_btc, reserve_musd)
reserves musd_token reserve_musd reserve_btc = (reserve_musd, reserve_btc)

-- The tests from `net` on: the two quotes against the formula
unfoldable pub check_quotes : ℕ → ℕ → ℕ → ℕ → ℕ → ℕ → Result Raised (Unit {0})
check_quotes amount reserve_in reserve_out fee pool_out router_out = do
  require (ltb (amount * fee) uint256)
  let net = amount - amount * fee / 10_000
  require (ltb (net * reserve_out) uint256 && ltb (reserve_in + net) uint256)
  let expected = net * reserve_out / (reserve_in + net)
  require (pool_out == router_out && router_out == expected)

-- The reserves and the fee
pub record Pool : Type 0 where
  pub reserve_musd : ℕ
  pub reserve_btc : ℕ
  pub fee_bps : ℕ
  pub btc_decimals : ℕ

-- The calls that do not depend on the amount
unfoldable pub read_pool : Texts → Calls Json → ℤ → Result Raised Pool
read_pool t calls timestamp = do
  token0 ← word_at t calls pool (codes "0x0dfe1681")
  require (token0 == hex_value 0 (drop 2 musd))
  token1 ← word_at t calls pool (codes "0xd21220a7")
  require (token1 == hex_value 0 (drop 2 btc))
  stable ← word_at t calls pool (codes "0x22be3de1")
  require (stable == 0)
  found ← words t calls pool (codes "0x0902f1ac") 3
  three ← three_words found
  require (ltb 0 three.0 && ltb 0 three.1 && leb_ℤ (pos three.2) timestamp)
  decimals ← word_at t calls btc (codes "0x313ce567")
  require (decimals == 18)
  fee ← word_at t calls factory (codes "0xcc56b2c5" ++ address_word t pool ++ zeros 64)
  require (ltb fee 10_000)
  ok (record {
    reserve_musd = three.0;
    reserve_btc = three.1;
    fee_bps = fee;
    btc_decimals = decimals;
  })

-- `pool_out` and `router[3]`, tested
unfoldable pub read_quotes : Texts → Calls Json → Pool → ℕ → Token → Result Raised (ℕ × ℕ)
read_quotes t calls p amount token_in = do
  pool_out ←
      word_at t calls pool
        (codes "0xf140a35a" ++ word amount ++ address_word t (address_of token_in))
  found ← words t calls router (router_calldata t amount token_in) 4
  router_out ← routed amount found
  let (reserve_in, reserve_out) = reserves token_in p.reserve_musd p.reserve_btc
  check_quotes amount reserve_in reserve_out p.fee_bps pool_out router_out
  ok (pool_out, router_out)

-- `decode_probe`
unfoldable pub decode_probe : Texts → Json → ℤ → Token → Result Raised Decoded
decode_probe t raw given_amount token_in = do
  probe ← given (as_object raw)
  header ← read_header t probe
  calls ← read_calls t header.number probe
  p ← read_pool t calls header.timestamp
  amount ← admitted given_amount
  out ← read_quotes t calls p amount token_in
  ok (record {
    block_number = hex_value 0 (drop 2 header.number);
    block_hash = header.hash;
    block_timestamp = header.timestamp;
    reserve_musd = p.reserve_musd;
    reserve_btc = p.reserve_btc;
    fee_bps = p.fee_bps;
    btc_decimals = p.btc_decimals;
    pool_amount_out = out.0;
    router_amount_out = out.1;
    amount_in = amount;
  })

-- `_buy_input`
unfoldable pub buy_input : ℕ → ℕ → ℕ → ℕ → Result Raised ℕ
buy_input quantity reserve_musd reserve_btc fee = do
  require (ltb 0 quantity && ltb quantity reserve_btc && ltb 0 reserve_musd && ltb fee 10_000)
  let denominator = reserve_btc - quantity
  let net = (quantity * reserve_musd + denominator - 1) / denominator
  ok ((net - 1) * 10_000 / (10_000 - fee) + 1)

pub data Side : Type 0 where
  buy sell : Side

unfoldable pub side_of : Str → Result Raised Side
side_of s =
    if str_eq s (codes "BUY")
    then ok buy
    else if str_eq s (codes "SELL")
    then ok sell
    else err value_error

abbrev is_decimal : ℕ → Bool
is_decimal c = leb b'0' c && leb c b'9'

-- `[1-9][0-9]{0,77}`
unfoldable pub is_quantity : Str → Bool
is_quantity [] = false
is_quantity (c ∷ s) = is_decimal c && not (c == b'0') && all is_decimal s && leb (length s) 77

-- The data of the calls to the router
unfoldable pub router_data : Texts → Items → Result Raised (List Json)
router_data t no_items = ok []
router_data t (item call rest) = do
  to ← text_at (codes "to") call
  later ← router_data t rest
  if str_eq (t.lower to) (t.lower router)
      then (do data' ← at (codes "data") call; ok (data' ∷ later))
      else ok later

abbrev pub only {ℓ} : {A : Type ℓ} → List A → Result Raised A
only (x ∷ []) = ok x
only _ = err value_error

-- `amount`, from the calldata of the one call to the router
unfoldable pub planned_amount : Texts → Json → Result Raised ℤ
planned_amount t probe = do
  raw ← at (codes "calls") probe
  items ← given (as_array raw)
  calls ← router_data t items
  call ← only calls
  data' ← given (as_text call)
  require (leb 74 (length data'))
  given (t.int_16 (take 64 (drop 10 data')))

abbrev pub token_of : Side → Token
token_of sell = btc_token
token_of buy = musd_token

-- The last tests of `verify_capture`
unfoldable pub check_plan : Side → ℕ → Decoded → Result Raised (Unit {0})
check_plan sell quantity r = require (r.amount_in == quantity)
check_plan buy quantity r = do
  planned ← buy_input quantity r.reserve_musd r.reserve_btc r.fee_bps
  require (r.amount_in == planned)
  require (leb quantity r.router_amount_out)

pub record Verified : Type 0 where
  pub decoded : Decoded
  pub side : Side
  pub quantity_wei : ℕ

-- `verify_capture`
unfoldable pub verify_capture : Texts → Json → Result Raised Verified
verify_capture t raw = do
  capture ← given (as_object raw)
  require (
      has_keys
        (codes "schema" ∷ codes "source" ∷ codes "side" ∷ codes "quantity_wei" ∷ codes "probe" ∷ [])
        [] capture)
  require (is_text (codes "liqvera-mezo-dex-capture/v1") (get (codes "schema") capture))
  require (is_text (codes "mezo-dex:MUSD-BTC:testnet") (get (codes "source") capture))
  side_text ← given (as_text (get (codes "side") capture))
  quantity_text ← given (as_text (get (codes "quantity_wei") capture))
  side ← side_of side_text
  require (is_quantity quantity_text)
  let quantity = value 0 quantity_text
  require (ltb quantity uint256)
  amount ← planned_amount t (get (codes "probe") capture)
  r ← decode_probe t (get (codes "probe") capture) amount (token_of side)
  check_plan side quantity r
  ok (record { decoded = r; side = side; quantity_wei = quantity })
