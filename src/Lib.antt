-- ===== src/Lib.antt =====
-- Gess: a forward-chaining rule engine in Go with agendas, module focus and truth maintenance.
-- This library models the parts of the engine that decide which rule fires next, when a mutation
-- may take place, which facts stay supported, which values are equal, and how rule files are read and
-- laid out.
--
-- The parts and their files:
--   Module     Module names and the modules of a workspace (internal/engine/module.go,
--              rules/module.go, `ModuleName` of rules/id.go). Every other part names modules with it.
--   Focus      The focus stack of a session (internal/engine/session_agenda_driver.go,
--              internal/engine/focus.go). `Driver` is `sessionAgendaDriver`; `push_focus`,
--              `pop_focus`, `clear_focus_stack` and `reset_focus_stack` are its operations.
--              Focus/Agenda is the interface through which the focus loops ask an agenda;
--              Focus/Search holds the loops `nextFocusedActivation` and `hasFocusedActivation`,
--              and Focus/SearchLaws the search that they are compared with. Focus/Session holds the
--              calls of a session with their guards (`beginMutation`, `endMutation`,
--              `beginMutationForOrigin`, `drainQueuedMutations` of internal/engine/session.go), and
--              `applyAutoFocus`.
--   Origin     The focus calls of a rule's actions, and when an action may mutate during a run
--              (internal/engine/mutation.go, internal/engine/action.go, internal/engine/focus.go).
--   Agenda     internal/engine/agenda.go. Agenda/Activation has the two orders in which activations
--              fire, Agenda/Heap the heap of one module, and Agenda/Modules the map of heaps, with
--              `enqueueActivation`, `dequeueActivation`, `fixActivationOrder`, the peek and the next
--              activation of a module, the reset of all queues, and the scan of `nextQueue`.
--   Support    Truth maintenance (internal/engine/logical_support.go,
--              internal/engine/session_tms_store.go, `factSupportCode` of internal/engine/fact.go).
--              Support has the store of edges and its operations, Support/State the support states
--              of facts and the addition of support by a firing rule. `clear_supports` drops the
--              edges and counts no removals, so the totals of edges added and removed are in
--              balance with the edges only from one clear to the next.
--   ListPattern  Matching a list against a pattern (internal/engine/list_pattern.go), over the
--              evaluation of expressions and the equality of values as parameters.
--   OpenTable  The hash tables with open addressing and deletion marks of
--              internal/engine/backchain_demand_support_table.go and
--              internal/engine/rete_graph_token_bucket_table.go, which are four copies of one code.
--              OpenTable/Probe, OpenTable/Capacity and OpenTable/Table model that code for any key,
--              bucket and hash; OpenTable/DemandSupport, OpenTable/DemandFact,
--              OpenTable/TokenIdentity and OpenTable/FactToken are the four tables, with their keys
--              and hashes and with what is particular to each (`reserve`, the recycling `clear`).
--   HeadTable  The chain heads by token hash (`tokenIdentityHeadTable` of
--              internal/engine/rete_graph_token_bucket_table.go).
--   Budget     The limit on the steps of a demand cascade
--              (internal/engine/backchain_demand_budget.go).
--   Run        `Run` and its agenda loop (internal/engine/run.go). Run/Loop is the loop over an
--              interface of the session, Run/Ops; Run/Focused fills two of its operations with the
--              focus loops of Focus/Search; Run/Guards is `Run` round the loop, with the guards of
--              Focus/Session; Run/Config has the options.
--   History    The line history of the shell (cmd/gess/internal/repl/history.go). The
--              `bufio.Scanner` that reads its file stops at a line of 64 KiB or more.
--   Sexp       The s-expressions of rule files (internal/gesssexp). Sexp/Syntax has expressions,
--              tokens and positions, Sexp/Lexer and Sexp/Parser the reader (`lexer.next`,
--              `stringToken`, `parser.expr`, `parseAll` of internal/gesssexp/parser.go), Sexp/Format
--              and Sexp/Format/Write the formatter (internal/gesssexp/format.go), Sexp/Value
--              `AtomValue`. Sexp/Layout says, apart from both, which expressions and comments a text
--              stands for; its modules are about the reader and the formatter against that.
--              `strconv.Quote` and `strconv.UnquoteChar` are parameters,
--              with what is documented of them in `Quotes` and `Shortens`.
--   Values     The values of fields and expressions (rules/value.go). Values/Numbers has float64, the
--              conversion of integers to it and `CompareValues`, Values/Equality `Value.Equal` and
--              `Fields.Equal`, Values/Key `CanonicalKey` and `Fields.DuplicateKey`. Values/Scaled,
--              Values/Exact and Values/Decimal are about numbers and their texts, Values/Equivalence,
--              Values/Names and Values/Symmetry about `Equal`, and Values/KeyTexts, Values/KeyShapes,
--              Values/KeyNumbers, Values/KeyLaws, Values/EqualKeys and Values/Collisions about
--              keys. `strconv.Quote` and `strconv.FormatFloat` are parameters, with what is documented
--              of them in `Quotes` and `Formats`.
--   Prelude    What the parts share: Boolean tests, lists over the native numbers, texts as lists of
--              character codes, trimming, association lists for Go maps, integers, results.
--
-- How Go is read. A pointer to an activation is a number, and what the pointer leads to is a
-- function of it; a map is an association list, and a set a list in which `contains` looks. A nil
-- receiver is not modelled. A method that changes its receiver returns the new state. The channels
-- that serve as locks are Booleans. `strings.TrimSpace` is `trim_space`, over the white space of
-- `unicode.IsSpace`. How numbers are written (`strconv`, `fmt`) is a parameter `digits`, except in
-- Values/Key, which writes integers in base ten. Machine integers are natural numbers or integers
-- without a bound: the code only compares them, counts with them, and halves or doubles the places
-- of a heap. A float64 is a multiple of the least positive one; the type has more multiples than there
-- are floats, and `to_float` rounds to those that there are.
--
-- Fuel. `next_loop` has one round more than the stack has frames, and each round but the last pops
-- one. `sift_up` has as many rounds as the place it starts at, which halves; `sift_down` as many as
-- the heap has entries, since the place doubles. `drop_stale` and `take_pending` have as many
-- rounds as the heap has entries, and each round takes one out.
--
-- `find_from` and `find_insert_from` have one round for each slot, and a table never has all its
-- slots in use. `set` and `rehash` call each other, and a depth of two suffices. The run loop may go
-- on for ever, so its rounds are an argument, and it has no result where they run out.
--
-- `parse_all` starts with two rounds for each character and three more: each round of its loops and
-- each call of `expr` takes a token. `string_loop` has a round for each character. `digits` of
-- Values/Key has as many rounds as the number, and each takes a digit; `spacing` doubles eleven times,
-- which covers 64 bits.
--
-- Not modelled: the Rete network and the matching of conditions, the templates of facts, the
-- conversion of Go values by reflection, the storage and the birth ranks of activations, queries,
-- explanations, checkpoints, the language front end, the tools and their I/O: each needs the compiled
-- rules and expressions, reflection or I/O. The focus loops are over any agenda with the operations
-- of Focus/Agenda. The listener events other than those of support are left out.
pub mod Values
pub mod Prelude
pub mod Module
pub mod Origin
pub mod Focus
pub mod Agenda
pub mod History
pub mod ListPattern
pub mod Sexp
pub mod Support
pub mod OpenTable
pub mod HeadTable
pub mod Run
pub mod Budget
