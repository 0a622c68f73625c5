-- ===== src/Mezo/Queue.antt =====
-- The walk along the sorted Troves and the report, the second half of `_verify` in packages/public-capture/
-- src/liqvera_public_capture/public_adapters/mezo_troves.py.
use liqvera.Prelude.{
  ℕ, zero, suc, ◌+◌, ◌-◌, Bool, true, false, not, ◌&&◌, ◌||◌, List, [], ◌∷◌, Option, none, some,
  err, leb, ltb, ◌==◌, if◌then◌else◌, length, all,
}
use liqvera.Prelude.Action.{◌>>=◌, ◌>>◌, return, call, self}
use liqvera.Python.{Str, value_error, codes, str_eq, any}
use liqvera.Json.{Json, member_of}
use liqvera.Mezo.{Texts, require, word, address_word, Calls}
use liqvera.Mezo.Troves.{
  trove_manager, sorted_troves, price_feed, nobody, unit, queue_limit, Trove, debt_of, Used,
  Reading, found_icr, uint, address, trove,
}

-- The owners that were not seen yet, the two ends of the queue so far, the sums, and the borrower's
-- rank with the two sums before it
pub record Walk : Type 0 where
  pub unseen : List Str
  pub previous : Str
  pub current : Str
  pub rank : ℕ
  pub debt_ahead : ℕ
  pub net_ahead : ℕ
  pub place : Option (ℕ × ℕ × ℕ)

unfoldable pub remove_owner : Str → List Str → List Str
remove_owner owner [] = []
remove_owner owner (o ∷ owners) =
    let rest = remove_owner owner owners in if str_eq o owner then owners else o ∷ rest

-- The sums behind a node whose ratio is not below the minimum
abbrev pub counted : ℕ → Str → Str → Trove → Walk → Walk
counted gas borrower owner v w = record w {
  rank = w.rank + 1;
  debt_ahead = w.debt_ahead + debt_of v;
  net_ahead = w.net_ahead + (debt_of v - gas);
  place = if str_eq owner borrower then some (w.rank + 1, w.debt_ahead, w.net_ahead) else w.place;
}

unfoldable pub tally : ℕ → ℕ → Str → Trove → Walk → Walk
tally mcr gas borrower v w = if leb mcr v.ratio then counted gas borrower w.current v w else w

-- `previous, current = current, ...`
abbrev pub move_on : Str → Walk → Walk
move_on next w = record w {
  unseen = remove_owner w.current w.unseen;
  previous = w.current;
  current = next;
}

module _ (t : Texts) (calls : Calls Json) (price mcr gas : ℕ) (borrower : Str) where
  -- One round of the loop: an owner is taken off the unseen ones, which stand for `owners` without
  -- `seen`.
  unfoldable pub round : Walk → Reading Walk
  round w = do
    call (require (member_of w.current w.unseen))
    back ← address t calls sorted_troves (codes "0x765e0159") (address_word t w.current)
    call (require (str_eq back w.previous))
    node ← trove t calls price gas w.current
    call (require (node.status == 1))
    next ← address t calls sorted_troves (codes "0xb72703ac") (address_word t w.current)
    return (move_on next (tally mcr gas borrower node w))

  -- `while current != ZERO`, with fuel: each round takes an owner off the unseen ones.
  unfoldable pub walk : ℕ → Walk → Reading Walk
  walk zero w = call (err value_error)
  walk (suc fuel) w = if str_eq w.current nobody then return w else round w >>= walk fuel

pub data QueueStatus : Type 0 where
  not_active traversal_limit proven below_mcr system_paused : QueueStatus

-- What `_verify` returns, over the header and the addresses of the capture
pub record Report : Type 0 where
  pub target : Trove
  pub price : ℕ
  pub mcr : ℕ
  pub ccr : ℕ
  pub tcr : ℕ
  pub gas_compensation : ℕ
  pub sorted_troves_size : ℕ
  pub place : Option (ℕ × ℕ × ℕ)
  pub queue_status : QueueStatus

abbrev pub walked_status : Option (ℕ × ℕ × ℕ) → QueueStatus → QueueStatus
walked_status none before = before
walked_status (some place) before = proven

-- The report behind the walk
unfoldable pub concluded : Report → Option (ℕ × ℕ × ℕ) → Report
concluded r place =
    if ltb r.tcr r.mcr
    then record r { place = none; queue_status = system_paused }
    else if r.target.status == 1 && ltb r.target.ratio r.mcr
    then record r { place = place; queue_status = below_mcr }
    else record r { place = place; queue_status = walked_status place r.queue_status }

abbrev pub ends_agree : ℕ → Str → Str → Bool
ends_agree size first last =
    if size == 0
    then str_eq first nobody && str_eq last nobody
    else not (str_eq first nobody) && not (str_eq last nobody)

abbrev pub distinct : List Str → Bool
distinct [] = true
distinct (o ∷ owners) = not (member_of o owners) && distinct owners

-- `seen == set(owners)`, where what is left is empty
abbrev pub no_one : List Str → Bool
no_one [] = true
no_one (o ∷ owners) = false

-- `set(calls) == used`
unfoldable pub all_used : Calls Json → Used → Bool
all_used calls used = all (λ (c : (Str × Str) × Json). is_used c.0 used) calls
  where
    is_used : Str × Str → Used → Bool
    is_used (to, data') used = any (λ (k : Str × Str). str_eq to k.0 && str_eq data' k.1) used

module _ (t : Texts) (calls : Calls Json) where
  -- `owners`, from an index on
  unfoldable pub read_owners : ℕ → ℕ → Reading (List Str)
  read_owners zero index = return []
  read_owners (suc n) index = do
    owner ← address t calls trove_manager (codes "0xd9a72444") (word index)
    owners ← read_owners n (suc index)
    return (owner ∷ owners)

  -- `set(calls) == used`: what was used is among the calls.
  unfoldable pub require_all_used : Reading (Unit {0})
  require_all_used = do used ← self; call (require (all_used calls used))

  -- From `owners` on
  unfoldable pub read_queue : Str → Str → Str → Report → Reading Report
  read_queue borrower first last r = do
    owners ← read_owners r.sorted_troves_size 0
    call (require (distinct owners && not (member_of nobody owners)))
    call (
        require (
          (member_of borrower owners && r.target.status == 1)
          || (not (member_of borrower owners) && not (r.target.status == 1))))
    w ← walk t calls r.price r.mcr r.gas_compensation borrower (suc (length owners)) (record {
      unseen = owners;
      previous = nobody;
      current = last;
      rank = 0;
      debt_ahead = 0;
      net_ahead = 0;
      place = none;
    })
    call (require (no_one w.unseen && str_eq w.previous first))
    require_all_used
    return (concluded r w.place)

  -- From `price` on
  unfoldable pub read_report : Str → Reading Report
  read_report borrower = do
    price ← uint t calls price_feed (codes "0x0fdb11cf") []
    precision ← uint t calls trove_manager (codes "0xa20baee6") []
    mcr ← uint t calls trove_manager (codes "0x794e5724") []
    ccr ← uint t calls trove_manager (codes "0x5733d58f") []
    gas ← uint t calls trove_manager (codes "0x7af110ba") []
    call (require (ltb 0 price && precision == unit && ltb 0 mcr && leb mcr ccr && ltb 0 gas))
    system_debt ← uint t calls trove_manager (codes "0x795d26c3") []
    system_coll ← uint t calls trove_manager (codes "0x887105d3") []
    tcr ← uint t calls trove_manager (codes "0xb82f263d") (word price)
    call (found_icr tcr system_coll system_debt price)
    size ← uint t calls sorted_troves (codes "0xde8fa431") []
    owners_count ← uint t calls trove_manager (codes "0x49eefeee") []
    call (require (size == owners_count))
    first ← address t calls sorted_troves (codes "0x1e223143") []
    last ← address t calls sorted_troves (codes "0x4d622831") []
    call (require (ends_agree size first last))
    target ← trove t calls price gas borrower
    let r : Report = record {
      target = target;
      price = price;
      mcr = mcr;
      ccr = ccr;
      tcr = tcr;
      gas_compensation = gas;
      sorted_troves_size = size;
      place = none;
      queue_status = if target.status == 1 then traversal_limit else not_active;
    }
    if ltb queue_limit size then require_all_used >> return r else read_queue borrower first last r
