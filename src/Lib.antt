-- ===== src/Lib.antt =====
-- DPS, a framework for deterministic parallel SAT solvers.
--
-- A run of DPS has a number of threads, each with a sequential SAT solver of its own. A thread's run is
-- cut into periods, by the number of its memory accesses. During a period a thread collects clauses
-- for the others; at its end it exports a selection of them, and imports what each other thread
-- exported `margin` periods before. Since the import is tied to the period and not to the clock,
-- the run does not depend on how the threads are scheduled.
--
-- Files and the code that they model:
--   Base              lists over native numbers, unsigned words, a result type for failed assertions;
--                     child Decimal: numbers as text
--   Period/Clause     DPS-src/sat/Clause.h
--   Period/PrdClauses DPS-src/period/PrdClauses: the clauses that a thread exports in one period
--   Period/Queue      DPS-src/period/PrdClausesQueue: those sets of one thread, oldest first. Children:
--                     Invariant (what holds between two calls), Addition (completeAddtion), Lookup
--                     (both get), Exportation (completeExportation)
--   Period/Manager    DPS-src/period/PrdClausesQueueMgr: a queue for each thread
--   Period/Wait       waiting for the set of a period to be completed, as steps on a condition variable;
--                     child Order
--   Period/Buffer     DPS-src/period/ClauseBuffer: the clauses that wait for export, by key. Children:
--                     Order (the buffer as one list), Export (exportTo), Contract (what it promises)
--   Parallel/Sharer   DPS-src/parallel/Sharer: the state that all threads share. Children: Winner
--                     (IFinished over all reports), Verdict (shouldBeTerminated)
--   Parallel/Options  DPS-src/parallel/Options: what the command line can set. Children: Table (the
--                     declarations), Declared (what is read is declared), Applied (each option sets its own field)
--   Parallel/DetParallelSolver  DPS-src/parallel/DetParallelSolver: the number of threads and their
--                     making; child Threads (they fit what they share)
--   Solver            DPS-src/solvers/AbstDetSeqSolver: the state of one thread; Solver/Import is
--                     importClauses (child Window: what is taken over from one queue), Solver/Period
--                     is checkPeriod and the methods that it calls (child Schedule), Solver/Start the
--                     constructor, Solver/Report the end of solve (child Last), Solver/Threshold the
--                     bound on the LBD of what is exported
--   Solver/Factory    DPS-src/solvers/SolverFactory.cpp: a solver by the name of its base solver
--   Solver/Kissat     DPS-src/solvers/DPS_C_API.cpp and kissat/kissat-sc2021/src/dps_api.c: a Kissat
--                     solver takes imported clauses over. Children: Sound (one clause), Apply (all)
--   Solver/KissatWrapper  DPS-src/solvers/KissatWrapper: the assignment that Kissat has found. Children:
--                     Setup (the constructor; its children Gcd, and Share: how many threads
--                     apply elimination),
--                     Calls (the formula, the export filter, solve, and dps_check_period of
--                     dps_api.c; its children Threshold and Fed)
--   Simp              what the wrappers of MiniSat, Glucose and MapleCOMSPS repeat, with the functions
--                     applyImportedClauses and applyImportedClause that are added to the Solver.cc of
--                     minisat, glucose and mcomsps. Children: MiniSat, Glucose, MapleComsps (what each
--                     has of its own), Literals (the codes of a literal), Load (loadFormula; its
--                     child Answer: getModel), Sound (imported clauses), Filter (Glucose's filter)
--   Sat               DPS-src/sat: Instance is the formula with its reader (children Scan and
--                     Load), Model an assignment, its check (child Meaning) and its print-out (child Print)
--   Utils/Chronometer  DPS-src/utils/Chronometer: timers that interrupt each other; child Balance
--   System            checkPeriod of all threads together, interleaved in any order, in deterministic
--                     mode without the adaptive period length. Children: Ring (distances between
--                     threads), Rounds (the same run without concurrency), Publish (the end of a
--                     period), Invariant, Update and Steps (what every step keeps), Determinism,
--                     Progress, Launch
--   System/Launch     the same with the threads' ends: the request to stop of checkPeriod, and the end
--                     of each wrapper's solve. Children: Shadow (a launch as a run of System), Answer
--                     (the reports), Plain (the rounds without ends), Close (a last period),
--                     Invariant, Update, Steps, Reports, Late and LastPeriod (what every step
--                     keeps),
--                     Outcome, Progress, Measure and Ending (how a launch ends), Alone (the steps of
--                     one thread); Solvers: the abstract solver as the thread of a launch, with its
--                     children Selected (what is exported), Fields, Exchange, Import, Check,
--                     Complete, Simulation, Ready and Runs (checkPeriod), Ends (the end of solve)
-- The Tests modules run the definitions at small inputs and hold an instance of each result.
--
-- A class is a record of its fields; a method takes the record and returns the new one, with its
-- result. Names are the source's, in snake case (completeAddtion is complete_addition). A failed
-- assertion, a call that Kissat aborts on and an access out of bounds are the value `fault`; that a
-- method does not fail is part of what is proved about it. A loop over a container is a recursion on the list. The while loop of
-- importClauses takes fuel, one more than there are sets in the queue, which is enough. The loops of
-- the reader take fuel too, and one more than there are bytes is enough, unless the file ends in a
-- comment line without a line end.
-- uint32_t and uint64_t are native numbers with `% 2 ^ 32` and `% 2 ^ 64` where the code adds or
-- subtracts. A method that holds a lock for all that it does is one step. A set of clauses, which
-- the program shares by pointer, is named by its period. Where a set that is due is not completed,
-- the import has the outcome `waits`.
--
-- In Period/Wait a step is what happens between two points where the lock of a set is free. There the
-- single test before the sleep is modelled as it stands; all other modules take a thread that waits to
-- go on only when the set is completed, which holds if no thread wakes up without a signal.
--
-- In System a step is one access of a thread to shared state: it completes its period, it imports
-- from one other thread, or it moves to the next period. A thread that has to wait has no step. In
-- its import a thread reads a completed set, which no longer changes, and then marks it as taken;
-- this is one step too. Between two accesses a thread depends on its own state alone, by functions that
-- are parameters there. In System/Launch a thread also tests whether it has to stop, reports its
-- result and completes its last period, each of which is one step. A search also reads the request
-- to stop in the middle of a period (MiniSat, Glucose and MapleCOMSPS do at a restart); a read that
-- asks it to stop is a step, and one that does not changes nothing and is none. A thread that was
-- told to stop reports that it has no result, or the answer that its search still comes to: Kissat's
-- propagation and analysis do not look at what the period check returned. Which answer that is, if
-- any, is a function of the thread's own state, which is a parameter. No thread gives up by itself:
-- the limits on time and memory are off.
--
-- Kissat accepts the variables up to 2 ^ 28 - 1 only, fewer than the reader does; the tests are
-- part of the model of dps_api.c, and for the calls that feed Kissat the laws say that these do not
-- abort within that range. In Simp a value is read only of a variable that the solver has, and is a
-- `fault` otherwise.
--
-- The loop that makes new variables takes one round more than it can make variables, and Kissat's gcd
-- takes 101, which the code's arguments never use up.
--
-- Parameters: the double type with its operations, what a base solver adds to the abstract class, the
-- quantile estimator, the readings of clock, memory and number of CPUs, the command-line parser, and
-- the operations of Kissat, MiniSat, Glucose and MapleCOMSPS, with their soundness as laws. The
-- search of a base solver, with all the calls that it makes of its wrapper, is a parameter of solve.
--
-- Not modelled: the solvers themselves and the other libraries that the repository holds a copy of, the
-- creation and the join of threads, the limits on time and memory in a launch, the print-out of
-- statistics, the getters of counters, and the calls of the chronometer in the other parts. The
-- pointer from an added function to its wrapper is taken to be there.
mod Base
pub mod Period
pub mod Parallel
pub mod Solver
pub mod System
pub mod Sat
pub mod Simp
pub mod Utils
