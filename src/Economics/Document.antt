-- ===== src/Economics/Document.antt =====
-- The document of the sealed economics, written and read.
use liqvera.Prelude.{◌≡◌, ok}
use liqvera.Python.{Str, Unicode, IsUnicode, codes}
use liqvera.Exact.Range.{IsInt64}
use liqvera.Exact.RoundTrip.{parse-to_text}
use liqvera.Json.{Json, object, Members}
use liqvera.Economics.{
  SealedStageAEconomics, from_document, from_members, to_document, parse_money, require_bool,
  episode_count,
}

-- The five amounts fit the range of ExactDecimal.
pub record HasAmounts (e : SealedStageAEconomics) : Type 0 where
  pub total : IsInt64 e.total_net.scaled
  pub median : IsInt64 e.median_net.scaled
  pub thousand : IsInt64 e.usd_1000_net.scaled
  pub five_thousand : IsInt64 e.usd_5000_net.scaled
  pub concentration : IsInt64 e.largest_episode_concentration.scaled

module _ (u : Unicode) (law : IsUnicode u) where
  -- from_document reads the document of to_canonical_json back as the same economics, where the
  -- Unicode tables agree with ASCII and the five amounts fit an int64.
  pub from_document-to_document :
      (e : SealedStageAEconomics) → HasAmounts e → from_document u (object (to_document u e)) ≡ ok e
  unfolding from_document from_members to_document liqvera.Json.has_keys liqvera.Json.keys
      liqvera.Python.str_eq liqvera.Json.find episode_count parse_money require_bool
  from_document-to_document e fits =
      let a = parse-to_text u law e.total_net fits.total in
      let b = parse-to_text u law e.median_net fits.median in
      let c = parse-to_text u law e.usd_1000_net fits.thousand in
      let d = parse-to_text u law e.usd_5000_net fits.five_thousand in
      let f = parse-to_text u law e.largest_episode_concentration fits.concentration in
      rw (a, b, c, d, f)
