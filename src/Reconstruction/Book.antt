-- ===== src/Reconstruction/Book.antt =====
-- `ReconstructedBook` of reconstruction/common.py, with the tests of its `__post_init__`.
use liqvera.Prelude.{
  ◌≡◌, ok-injective, Ensures, ensured, ℕ, Bool, true, false, not, ◌||◌, Option, none, some, Result,
  ok, err, ◌>>◌, raise_if, if◌then◌else◌,
}
use liqvera.Python.{
  is_sha256, Str, Raised, Unicode, codes, is_empty, str_eq, starts_with, drop, isdigit, int_text,
}
use liqvera.Market.{OrderBookSnapshot}
use liqvera.Provenance.{MarketMappingEvidence}

-- The first two are ValueErrors; a ReconstructionError aborts, a plain ValueError does not everywhere.
-- The last is what `json.loads` raises past the decoders.
pub data Error : Type 0 where
  reconstruction_error value_error : Error
  escaped : Raised → Error

abbrev pub hyperliquid_decoder_id : Str
hyperliquid_decoder_id = codes "liqvera-hyperliquid-l2book-snapshot/v1"

abbrev pub lighter_decoder_id : Str
lighter_decoder_id = codes "liqvera-lighter-subscribed-order-book-snapshot/v1"

abbrev pub channel_prefix : Str
channel_prefix = codes "order_book:"

-- `channel[len(_CHANNEL_PREFIX):]`
abbrev pub channel_suffix : Str → Str
channel_suffix channel = drop 11 channel

-- Envelope index and epoch are not negative by type.
pub record ReconstructedBook : Type 0 where
  pub snapshot : OrderBookSnapshot
  pub envelope_index : ℕ
  pub payload_sha256 : Str
  pub decoder_id : Str
  pub epoch_id : ℕ
  pub mapping_id : Option Str
  pub mapping : Option MarketMappingEvidence
  pub channel : Option Str

abbrev pub is_none {ℓ} : {A : Type ℓ} → Option A → Bool
is_none none = true
is_none (some a) = false

-- The tests of `_channel` and `_require_channel` on a Lighter channel. The last is that `int` accepts
-- the suffix, which raises a plain ValueError where it does not.
unfoldable pub require_lighter_channel : Unicode → Str → Result Error (Unit {0})
require_lighter_channel u channel = do
  raise_if (not (starts_with channel_prefix channel)) reconstruction_error
  raise_if (not (isdigit u (channel_suffix channel))) reconstruction_error
  raise_if (is_none (int_text u (channel_suffix channel))) value_error

-- `_require_channel`
unfoldable pub require_channel : Unicode → Str → Option Str → Result Error (Unit {0})
require_channel u venue none =
    raise_if (not (str_eq venue (codes "HYPERLIQUID"))) reconstruction_error
require_channel u venue (some channel) =
    if str_eq venue (codes "HYPERLIQUID")
    then err reconstruction_error
    else require_lighter_channel u channel

-- The tests on the venue.
unfoldable pub require_venue : ReconstructedBook → Result Error (Unit {0})
require_venue b =
    if str_eq b.snapshot.venue (codes "HYPERLIQUID")
    then raise_if
        (not (is_none b.snapshot.sequence) || not (str_eq b.decoder_id hyperliquid_decoder_id))
        reconstruction_error
    else if str_eq b.snapshot.venue (codes "LIGHTER")
    then raise_if (is_none b.snapshot.sequence || not (str_eq b.decoder_id lighter_decoder_id))
        reconstruction_error
    else err reconstruction_error

-- The tests on the mapping.
unfoldable pub require_mapping : Option Str → Option MarketMappingEvidence → Result Error (Unit {0})
require_mapping none none = ok tt
require_mapping (some id) (some m) =
    raise_if (is_empty id || not (str_eq m.mapping_id id)) reconstruction_error
require_mapping _ _ = err reconstruction_error

-- `__post_init__`
unfoldable pub admit : Unicode → ReconstructedBook → Result Error ReconstructedBook
admit u b = do
  require_venue b
  raise_if (not (is_sha256 b.payload_sha256)) reconstruction_error
  require_mapping b.mapping_id b.mapping
  require_channel u b.snapshot.venue b.channel
  ok b

unchanged : (b : ReconstructedBook) → Ensures {E = Error} (λ c. b ≡ c) (ok b)
unchanged b = record { holds = λ c h. ok-injective h }

-- The constructor changes nothing.
pub admit-eq : (u : Unicode) (b : ReconstructedBook) → Ensures (λ c. b ≡ c) (admit u b)
unfolding admit
admit-eq u b = search (ensured, unchanged) depth 8
