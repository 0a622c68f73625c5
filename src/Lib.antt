-- ===== src/Lib.antt =====
-- Liqvera: the evidence contracts, the read-only analyzer and the report's calculations.
--
-- Market data is captured from public venues and sealed into packages. The analyzer reads a package,
-- rebuilds the order books from the raw messages, and decides by fixed gates whether the evidence
-- suffices and whether the economics allow a longer run. The report sweeps a rebuilt book for an
-- executable fill, and quotes a pool. Money is an exact count of 1e-8 in an int64.
--
--  * Exact, Decimal: packages/contracts/src/liqvera_contracts/exact.py. ExactDecimal.__init__ is
--    make, __str__ is to_text; Exact.Fraction is its functions on fractions whose expansion ends,
--    and from_decimal stands in Decimal, over finite decimals as a
--    coefficient and a number of places.
--  * Market: packages/contracts/src/liqvera_contracts/market.py, the book levels and snapshots; admit
--    is OrderBookSnapshot.__post_init__. Market.Venue is VenueMarket, and Market.Common is
--    discover_common_markets.
--  * Provenance, Evidence, Economics: the records of provenance.py, evidence.py and economics.py
--    beside it, with the tests of their constructors; Economics also reads and writes the document,
--    Provenance.Pairs is valid_for and validate_mapping_pair, and Provenance.Costs is
--    calculate_entry_costs. Provenance.Current states a mapping's validity apart from the code's test.
--  * Decision: decision.py beside it; stage_a_decision is the constructor of StageADecision.
--  * Reconstruction: packages/readonly-analyzer/src/liqvera_readonly_analyzer/reconstruction/. Book
--    is ReconstructedBook of common.py, and Epochs is reconstruct_books with the open Lighter
--    epochs; Hyperliquid, Lighter and Decoding are the decoders of hyperliquid.py and lighter.py over
--    the values of Json, and Levels is _apply_side of lighter.py.
--  * Identity: identity.py of the analyzer, the binding of rebuilt books to mappings.
--  * Vwap: vwap.py of the analyzer. Fills is the reference that the loop is held against.
--  * Package: frozen_package/ of the analyzer. Package itself is codec.py and types.py, Reader the
--    constructor of FrozenPackageEvidenceReader, Records its methods, Mappings its
--    read_mapping_snapshot. A package on the disk is a Root: its entries in sorted order, each with
--    what it leads to and whether it is a link.
--  * Verdict: the gates of verdict.py of the analyzer, from the sealed records to the decision.
--  * Evaluate: evaluate_frozen_package of verdict.py, which composes Package, Reconstruction,
--    Identity, Economics and Verdict, with its exception handlers. Reading, Sealing and Decided say at
--    which step it stopped, Weighed what a decision rests on.
--  * Entry: __main__.py and config.py of the analyzer, the command from its environment to its exit
--    code.
--  * Amm: the pool quotes of packages/evidence-report/src/liqvera_evidence_report/calculation.py, and
--    in Amm.Trove its trove_risk.
--  * Capture: public_adapters/lighter.py of packages/public-capture/src/liqvera_public_capture/: the
--    LighterBookReducer under its messages, an Action that changes the object and returns or raises.
--  * Adapter: LighterPublicAdapter and HyperliquidPublicAdapter of public_adapters/ there; Lighter and
--    Hyperliquid are their methods, Details the listing of Lighter, and Channel the channel that a
--    reducer was fed from.
--  * Mezo: the offline checks of public_adapters/ there. Dex is mezo_dex.py, whose quotes are those of
--    Amm; Troves, Queue and TroveCapture are mezo_troves.py: its reads, its walk along the sorted
--    list, and its capture. The walk has one more round of fuel than there are owners.
--  * Writer: package.py of packages/public-capture/src/liqvera_public_capture/. Site is the directory
--    that write_frozen_package clears and fills, in the same entries that the reader scans.
--  * Prelude, Python: shared types and lemmas, Python's integers, results and texts.
--  * Tests: the theorems applied to concrete data.
--
-- A call that raises returns err with the exception; which exceptions are kept apart is what the
-- handlers tell apart. Tests on the types of arguments hold by typing. A Python text is the list of
-- its code points, and the Unicode tables behind isdigit, int, strip and casefold are a parameter, of
-- which the theorems ask at most that they agree with ASCII. The fuel of str_nat is one more than the
-- number, and a number has no more digits than that; the fuel of Exact.Fraction.strip is the number
-- that is divided, and each round makes it smaller. Fractions of the sweep are held over their common
-- denominators 1e8 and 1e16. The other loops recurse on their lists.
--
-- json.loads is a parameter of the decoders, with no hypothesis on what it returns or raises. The record
-- Platform holds it with json.dumps, SHA-256, the text codecs, POSIX paths and UUIDs, and Builtins
-- holds repr, int and Decimal of texts. Only the theorems on written packages ask anything of them:
-- what they ask is in the records IsPlain, IsReadable, IsCodec and IsDumped of Writer. A package does not change
-- while it is read, and nothing else writes to it while it is written.
--
-- What a transport of the public capture returned and what its clock read are arguments. An
-- observation of Mezo's contracts raises one ValueError whatever is wrong with it.
--
-- Not modelled: the JSON library, SHA-256, files, sockets, HTTP, the capture functions that call
-- an RPC, the services and runners of the public capture, of the evidence report and of the tools,
-- the gateway and the web application, and the contracts in Solidity.
pub mod Capture
pub mod Package
pub mod Evaluate
pub mod Entry
pub mod Prelude
pub mod Python
pub mod Exact
pub mod Decimal
pub mod Json
pub mod Market
pub mod Provenance
pub mod Reconstruction
pub mod Vwap
pub mod Decision
pub mod Economics
pub mod Evidence
pub mod Identity
pub mod Verdict
pub mod Amm
pub mod Writer
pub mod Adapter
pub mod Mezo
pub mod Tests
