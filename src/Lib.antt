-- ===== src/Lib.antt =====
-- Verification of VERITAS, a program analysis and evidence system written in C++: models of its
-- core algorithms and the theorems that make them correct.
--
-- The program extracts facts from LLVM modules, derives whole-program facts from them by rules,
-- stores both under content-derived identifiers, and writes evidence for its conclusions. The parts
-- that are modelled, with the files of the repository that they follow:
--
-- Common: names, Boolean tests, lists over native numbers, byte strings and their order, decimal
-- numerals, sorting.
--
-- Core: `Status` (include/veritas/core/Status.h, `StatusOr` as a value or an error); `Hash`
-- (src/core/Hash.cpp), with `Words` for `ProcessBlock`, `Hasher` for `SHA256Hasher::Update` and
-- `Finalize`, where `drain` is the loop over whole blocks, `Drain` and `Stream` for the invariant of
-- the buffer, `Padding` for the specification of FIPS 180-4, and `Hex` for `DigestToHex` and
-- `HexToDigest`; `Ids` (src/core/Ids.cpp), with `Kinds` for the spellings, `Format` for `ToString`,
-- `ParseStableId` and `MakeStableId`, and `Equality` for the comparison; `Canonical`
-- (src/core/CanonicalValue.cpp), the byte encoding of values, with `Written` for what is written and
-- `Injective` for its injectivity. 32-bit words wrap around
-- (`% 2 ^ 32`), and so does the 64-bit count of bits.
--
-- Facts: `Epistemic` (src/facts/Epistemic.cpp, `JoinEpistemic`) and `KeyCodec`
-- (src/facts/SemanticKeyCodec.cpp). The loop of `DecodeFields` runs on the length of its input as
-- fuel: every field takes a byte at least, so that is enough, and `DecodeFields` in the model always
-- ends with a list of fields or with an error of the program. `std::size_t` has 64 bits.
--
-- Evidence: `Utf8` and `Lexer` (src/evidence/EirLexer.cpp). A state of `EirLexer` is the text that is
-- left with the cursor, the line and the offset of the line's start. Its loops run on fuel; the result
-- `stuck` says that the fuel ran out, and `Lexer.Positions` proves that it never does from the length
-- of the text and 3 on: every round takes a byte at least. `Lexer.Walk` has the states that calls of
-- `Advance` reach, `Lexer.Skip` the blanks and comments, `Lexer.Yields` the tokens. `Writer` has the
-- spelling of strings and `IsIdentifier` of src/evidence/EirWriter.cpp; its loop over segments has the
-- length of the text as fuel, and every round takes a dot. `Lexer.Literal` and `Lexer.Identifier`
-- compare them with the lexer. `Completion` has `ValidateDescriptor` of
-- src/evidence/QueryCompletion.cpp and the check of a budget in src/evidence/SliceTypes.cpp, and
-- `Completion.Certificate` what they accept.
--
-- Evidence.Case (include/veritas/evidence/EvidenceCase.h, src/evidence/EvidenceCase.cpp and
-- SliceTypes.cpp): `Enums` and `Records` are the model of a case, `Names` the `ToString`s, `Parse` the
-- `Parse...` functions, and `Families` and `Spellings` treat all enumerations at once.
-- Evidence.Canonicalizer (src/evidence/EvidenceCanonicalizer.cpp): `Elements` has `KeyedLess` and the
-- sorted collections, `Expressions`, `Records` and `Findings` the `Encode...` functions of single
-- records, `Collections` those of member collections, and `Root` the bytes, the identity and
-- `FinalizeEvidenceIdentity`, with the validator as an argument. `Order` shows what a sorted
-- collection depends on, `Total` and `Encoders` that encoding never fails, `Reorder`, `Alike` and
-- `Finalize` have the theorems. The values are those of `Core.Canonical`; `Core.Canonical.Build` has
-- the filling of arrays and maps, and `Common.Sort` is `std::sort`. Integers are given by their bits.
-- Evidence.Case.Compare is `CompareExpressions`.
--
-- Evidence.Validator (src/evidence/EvidenceValidator.cpp): a report is the list of its issues, each with
-- its code and its member; the text of the messages is left out. `Index` has the declared members (the
-- map `members_` finds the first declaration of an identifier), `States`, `Authority`, `References`,
-- `Expressions` and `Structure` have the passes, and `Run` composes them as `CaseValidator::Run` does.
-- `Contract` has what the pass over expressions demands of them, which is less than the contract in
-- EvidenceCase.h (see there), and `Typing` and `Accepted` that it decides that. `Domain` has what a
-- predicate is that argues for its execution domain, and `Domain.Search` that the validator finds
-- nothing else. `Passes` takes a report
-- without issues apart, `Members` and `Graph` show what it says of identifiers,
-- edges and paths, `Verified` what backs a verified state, and `Finalize` joins the validator with
-- `FinalizeEvidenceIdentity` of the canonicalizer.
--
-- Wpa: `Rules` (src/wpa/CppRuleEvaluator.cpp), the closures of `Evaluate` (over call edges, for
-- reachability, reads and writes) and of `EvaluateFlow`, on tuples of two identifiers and an epistemic
-- state. A closure runs on one more than the number of candidate tuples as fuel: the subjects and the
-- objects of a derived tuple are those of rows, and every round but the last derives a candidate that
-- was missing (`Rules.Universe`). `Rules.Insert` has what a round adds, `Rules.Closure` the rules and the
-- loop, `Rules.Model` the theorem on the whole, `Rules.Datalog` compares the closures with the rules in
-- logic/, `Rules.Weakness` the order of the states. The rule
-- evaluator takes the states of `Facts.Epistemic` and the identifiers of `Core.Ids`.
--
-- Svf: `Budget` (src/analysis/svf/SvfBudget.cpp), the limits on a run of the pointer analysis. The
-- readings of the clock are arguments.
--
-- Runtime: `Worklist` (src/runtime/WorklistScheduler.cpp), the deduplicating scheduler. `by_key_` is an
-- association list; its order is not modelled, since both loops over it compare the keys.
--
-- Summarydb: `Impact` (src/summarydb/DependencyIndex.cpp, `GetImpactSet`), the traversal from a change
-- to the consumers that it affects. `UsersOf`, a query of the store, is an argument. The loop over the
-- depth runs on the levels that the budget leaves, so no fuel is needed. `Impact.Maps` has its
-- maps, `Impact.Sound` what is collected, `Impact.Result` that the traversal returns. The identifiers are those of `Core.Ids`, and
-- the order of keys is `bytes_lt` of `Common.Text`.
--
-- Not modelled: the witness edges, the resolution of rows and the effects component of the rule
-- evaluator; signed number fields of keys; the stores (SQLite and RocksDB), the front ends over Clang
-- and LLVM, the SVF stage but its budget, the Souffle executor, the evidence parser, case builder and
-- query service, the rest of the writer, the review tools and the command line, which are I/O or calls
-- of libraries, or which the parts above do not need.
pub mod Common
pub mod Core
pub mod Facts
pub mod Evidence
pub mod Wpa
pub mod Svf
pub mod Runtime
pub mod Summarydb
