-- ===== src/Tests/Redeeming.antt =====
-- Two Troves in a queue; the borrower stands behind the other one.
use liqvera.Prelude.{
  ℕ, ◌+◌, ◌*◌, ◌-◌, ◌≤◌, ◌<◌, ◌≡◌, refl, Bool, List, [], ◌∷◌, ◌++◌, map, Option, none, some, Result,
  ok, arith, length,
}
use liqvera.Python.{Str, codes, drop, zeros}
use liqvera.Json.{Json, text}
use liqvera.Mezo.{Texts, Calls, hex_value, word, address_word}
use liqvera.Mezo.Troves.{trove_manager, sorted_troves, nobody, Trove, Used}
use liqvera.Mezo.Queue.{Walk, walk, Report, proven, traversal_limit, read_queue}
use liqvera.Mezo.Reported.{IsReported, read_queue-IsReported, walk-enough}
use liqvera.Tests.Observing.{texts, words}

abbrev alice : Str
alice = codes "0x" ++ zeros 39 ++ codes "a"

abbrev bob : Str
bob = codes "0x" ++ zeros 39 ++ codes "b"

abbrev says : Str → Str → List ℕ → (Str × Str) × Json
says to data' result = ((texts.lower to, data'), text (codes "0x" ++ words result))

abbrev price : ℕ
price = 100

-- What the calls say of an owner: its debt and its two neighbours
abbrev owned : Str → ℕ → ℕ → ℕ → ℕ → Calls Json
owned owner collateral ratio back next =
    says trove_manager (codes "0xb91af97c" ++ address_word texts owner)
      (collateral ∷ 10 ∷ 0 ∷ 0 ∷ 0 ∷ 0 ∷ [])
    ∷ says trove_manager (codes "0x21e37801" ++ address_word texts owner) (1 ∷ [])
    ∷ says trove_manager (codes "0xd293c710" ++ address_word texts owner ++ word price) (ratio ∷ [])
    ∷ says sorted_troves (codes "0x765e0159" ++ address_word texts owner) (back ∷ [])
    ∷ says sorted_troves (codes "0xb72703ac" ++ address_word texts owner) (next ∷ [])
    ∷ []

abbrev calls : Calls Json
calls =
    says trove_manager (codes "0xd9a72444" ++ word 0) (10 ∷ [])
      ∷ says trove_manager (codes "0xd9a72444" ++ word 1) (11 ∷ [])
      ∷ owned bob 20 200 0 10
    ++ owned alice 30 300 11 0

abbrev alices : Trove
alices = record { collateral = 30; principal = 10; interest = 0; status = 1; ratio = 300 }

abbrev asked : Report
asked = record {
  target = alices;
  price = price;
  mcr = 110;
  ccr = 150;
  tcr = 250;
  gas_compensation = 2;
  sorted_troves_size = 2;
  place = none;
  queue_status = traversal_limit;
}

-- The calls about the target were used before.
abbrev used_before : Used
used_before = []

abbrev answered : Report
answered = record asked { place = some (2, 10, 8); queue_status = proven }

queue-read : (read_queue texts calls alice alice bob asked used_before).1 ≡ ok answered
unfolding read_queue liqvera.Mezo.Queue.read_owners liqvera.Mezo.Queue.require_all_used
    liqvera.Mezo.Queue.all_used liqvera.Mezo.Queue.concluded walk liqvera.Mezo.Queue.round
    liqvera.Mezo.Queue.tally liqvera.Mezo.Queue.remove_owner liqvera.Mezo.Troves.words
    liqvera.Mezo.Troves.uint liqvera.Mezo.Troves.address liqvera.Mezo.Troves.trove
    liqvera.Mezo.Troves.icr liqvera.Prelude.Action.◌>>=◌ liqvera.Mezo.hex_digit hex_value
    liqvera.Mezo.take liqvera.Mezo.chunks liqvera.Mezo.words_of liqvera.Mezo.hex_digits address_word
    liqvera.Mezo.result_at liqvera.Python.starts_with drop zeros liqvera.Python.str_eq
queue-read = refl

read_queue-IsReported_example : IsReported texts calls alice alice bob asked answered
read_queue-IsReported_example =
    read_queue-IsReported texts calls alice alice bob asked used_before
      {used = (read_queue texts calls alice alice bob asked used_before).0}
      (λ i. ((read_queue texts calls alice alice bob asked used_before).0, queue-read i))

abbrev begun : Walk
begun = record {
  unseen = alice ∷ bob ∷ [];
  previous = nobody;
  current = bob;
  rank = 0;
  debt_ahead = 0;
  net_ahead = 0;
  place = none;
}

walk-enough_example :
    walk texts calls price 110 2 alice 3 begun used_before
    ≡ walk texts calls price 110 2 alice 30 begun used_before
walk-enough_example =
    walk-enough texts calls price 110 2 alice 3 30 begun used_before (omega arith) (omega arith)
