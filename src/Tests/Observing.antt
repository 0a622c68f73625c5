-- ===== src/Tests/Observing.antt =====
-- An observation of the pool: 1000 are sold into reserves of a million and two million.
use liqvera.Prelude.{
  ℕ, ◌+◌, ◌≡◌, refl, ◌&&◌, List, [], ◌∷◌, ◌++◌, map, Option, some, ok, leb, if◌then◌else◌,
}
use liqvera.Prelude.Int.{ℤ, pos}
use liqvera.Python.{Str, codes, starts_with, drop, zeros}
use liqvera.Json.{
  Json, text, integer, array, object, Items, no_items, item, Members, no_members, member,
}
use liqvera.Mezo.{Texts, hex_value, word, address_word}
use liqvera.Mezo.Dex.{
  pool, router, factory, btc, musd, Token, btc_token, router_calldata, Verified, sell,
  verify_capture,
}
use liqvera.Mezo.Verified.{IsQuote, verify_capture-IsQuote}

abbrev lower_ascii : ℕ → ℕ
lower_ascii c = if leb b'A' c && leb c b'Z' then c + 32 else c

-- A prefix or none, and digits
abbrev ascii_int_16 : Str → Option ℤ
ascii_int_16 s =
    if starts_with (codes "0x") s
    then some (pos (hex_value 0 (drop 2 s)))
    else some (pos (hex_value 0 s))

abbrev pub texts : Texts
texts = record { lower = map lower_ascii; int_16 = ascii_int_16 }

abbrev pub words : List ℕ → Str
words [] = []
words (n ∷ ns) = word n ++ words ns

abbrev call : Str → Str → List ℕ → Json
call to data' result = object (
    member (codes "to") (text to) (
      member (codes "data") (text data') (
        member (codes "block") (text (codes "0x2a")) (
          member (codes "response")
            (object (
              member (codes "jsonrpc") (text (codes "2.0"))
                (member (codes "result") (text (codes "0x" ++ words result)) no_members)))
            no_members))))

abbrev calls : Items
calls = item (call pool (codes "0x0dfe1681") (hex_value 0 (drop 2 musd) ∷ [])) (
    item (call pool (codes "0xd21220a7") (hex_value 0 (drop 2 btc) ∷ [])) (
      item (call pool (codes "0x22be3de1") (0 ∷ [])) (
        item (call pool (codes "0x0902f1ac") (2_000_000 ∷ 1_000_000 ∷ 7 ∷ [])) (
          item (call btc (codes "0x313ce567") (18 ∷ [])) (
            item
              (call factory (codes "0xcc56b2c5" ++ address_word texts pool ++ zeros 64) (30 ∷ []))
              (item
                (call pool (codes "0xf140a35a" ++ word 1000 ++ address_word texts btc) (1_992 ∷ []))
                (item
                  (call router (router_calldata texts 1000 btc_token) (32 ∷ 2 ∷ 1000 ∷ 1_992 ∷ []))
                  no_items)))))))

abbrev hash : Str
hash = codes "0x" ++ zeros 64

abbrev probe : Members
probe = member (codes "rpc_url") (text (codes "https://rpc.test.mezo.org")) (
    member (codes "chain") (object (member (codes "result") (text (codes "0x7b7b")) no_members)) (
      member (codes "block")
        (object (
          member (codes "result")
            (object (
              member (codes "number") (text (codes "0x2a")) (
                member (codes "hash") (text hash)
                  (member (codes "timestamp") (text (codes "0x9")) no_members))))
            no_members))
        (member (codes "calls") (array calls) no_members)))

abbrev capture : Json
capture = object (
    member (codes "schema") (text (codes "liqvera-mezo-dex-capture/v1")) (
      member (codes "source") (text (codes "mezo-dex:MUSD-BTC:testnet")) (
        member (codes "side") (text (codes "SELL")) (
          member (codes "quantity_wei") (text (codes "1000"))
            (member (codes "probe") (object probe) no_members)))))

abbrev verified : Verified
verified = record {
  decoded = record {
    block_number = 42;
    block_hash = hash;
    block_timestamp = pos 9;
    reserve_musd = 2_000_000;
    reserve_btc = 1_000_000;
    fee_bps = 30;
    btc_decimals = 18;
    pool_amount_out = 1_992;
    router_amount_out = 1_992;
    amount_in = 1000;
  };
  side = sell;
  quantity_wei = 1000;
}

capture-accepted : verify_capture texts capture ≡ ok verified
unfolding verify_capture liqvera.Mezo.Dex.side_of liqvera.Mezo.Dex.is_quantity
    liqvera.Mezo.Dex.planned_amount liqvera.Mezo.Dex.router_data liqvera.Mezo.Dex.decode_probe
    liqvera.Mezo.Dex.read_header liqvera.Mezo.Dex.check_after liqvera.Mezo.Dex.read_calls
    liqvera.Mezo.Dex.length_items liqvera.Mezo.Dex.add_calls liqvera.Mezo.Dex.add_call
    liqvera.Mezo.Dex.read_pool liqvera.Mezo.Dex.words liqvera.Mezo.Dex.word_at
    liqvera.Mezo.Dex.read_quotes liqvera.Mezo.Dex.check_quotes liqvera.Mezo.Dex.check_plan
    liqvera.Mezo.Dex.router_calldata liqvera.Mezo.at liqvera.Mezo.text_at liqvera.Mezo.hex_digit
    hex_value liqvera.Mezo.take liqvera.Mezo.chunks liqvera.Mezo.words_of liqvera.Mezo.hex_digits
    address_word liqvera.Mezo.is_block liqvera.Mezo.is_hash liqvera.Mezo.result_at starts_with drop
    zeros liqvera.Python.str_eq liqvera.Json.get liqvera.Json.find liqvera.Json.keys
    liqvera.Json.has_keys
capture-accepted = refl

verify_capture-IsQuote_example : IsQuote verified
verify_capture-IsQuote_example = verify_capture-IsQuote texts capture capture-accepted
