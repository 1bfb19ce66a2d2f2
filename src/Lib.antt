-- ===== src/Lib.antt =====
-- mas-research turns lecture recordings and scans into summaries, quizzes, terms and reading
-- lists, by a team of agents that talk over Redis streams. A Coordinator builds a plan of
-- subtasks for each task, publishes a request for each subtask that is ready, takes the agents'
-- replies from its inbox, retries or fails what times out or is refused, and writes one artifact
-- when nothing is pending any more.
--
-- Files, and the code that each is about:
--   Base and the modules below it: lists, dicts, sets and integers on native numbers, with their
--   lemmas.
--   Values: the untyped contents of messages (dict[str, object]).
--   Schemas: src/core/schemas.py, the domain entities.
--   Plan: src/plan.py, build_plan and Plan.get. Plan.Dag and Plan.Find are about dependencies
--   and lookups, Plan.Ids about subtask ids.
--   Core: src/core/retry.py, messages.py, status_fsm.py, idempotency.py and the channel names of
--   bus.py.
--   Payloads: src/agents/payloads.py, the content of each request.
--   Text: what the program uses of Python's str, on lists of code points.
--   Coordinator: src/agents/coordinator.py and assembly.py. State has TaskState and the groups
--   of assignments that the handlers make; Effects the calls of bus, store and metrics; Assembly
--   the artifact; Handlers, Advance and Reply the methods of one task (_fail_subtask,
--   _schedule_retry_or_fail, _publish, _advance, _expire_timeouts, _republish_due, _route_reply,
--   _finalize); Loop and Tick the methods on the table of tasks (submit, _resume, _recover,
--   _tick, _abandon, _persist_result). Sweep, Ticks and Entering are about the entries of the
--   table, Keeps, Starts, Origins and Settings about what no handler touches (a task's entry
--   keeps its task, and so its plan stays the task's), Deadlines about the global deadline,
--   Driven and Results about the results that a task keeps, Fresh about a submission that
--   raises, Running has the run loop, and Reach is about every state that the loop comes to.
--   Agent: src/agents/base.py, the loop that all agents share; Agent.Replies is about a reply's
--   way back to the Coordinator, Agent.Reading about acknowledgements.
--   Ingestion: src/agents/ocr.py, transcriber.py and _chunk_stamp.py, with the rows of the
--   chunks in Ingestion.Persisted.
--   Summary: src/agents/summarizer.py and _llm_json.py: the retries and the reduction; Json has
--   the object of an answer, Flatten the texts of its values, Handling the handler.
--   Quiz: src/agents/test_generator.py, its handler in Quiz.Handling, what it takes for a
--   question to go out in Quiz.Accepted, and QuizQuestion.is_well_formed of src/core/schemas.py.
--   Terms: src/agents/terminology.py: filtering and counting, Merge the merging, Ranking and
--   Handling what follows it and the handler. Terms.Sums, Groups and Total are about the
--   frequencies that merging keeps, Present and Extracted about what each counted lemma has.
--   Recommend: src/agents/recommender.py but for the cosine, with the query in Recommend.Query.
--   Db: src/db/. Rows and Contents map contents to rows and back (result_mapping.py); Tables has
--   the tables with the checks of a flush (models.py), Repos the repositories (repos.py), Store
--   and Recovery src/agents/store.py and recovery.py. Db.Sound is the invariant on keys,
--   Db.Refinement what a saved result means for recovery, Db.Twice saving again.
--   Adapters: Adapters.Whisper is segments_to_chunks of src/adapters/whisper_transcriber.py,
--   Adapters.Spacy the adapter of src/adapters/spacy_ner.py. Spacy.Loading and Spacy.Ensured are
--   about the pipelines that it keeps, Spacy.Grouped, Filled and Batches about extract_many.
--   Corpus: src/corpus_builder/build.py, _search, fetch_papers and _reconstruct_abstract.
--   Api: src/api/routes.py, the three routes, with the queries and the sizes of the parts as
--   arguments. Api.Files has the detected type and the file name, and Names is about the names.
--   Main: src/main.py, the choice of adapters, the recommender's corpus, the agents with their
--   channels and timeouts, and the shutdown; src/config.py, the settings that these use.
--   Tests and Coordinator.Tests: the theorems at concrete inputs.
--
-- State: a handler of one task is a function from a Run (the task's state and the world) to a
-- result and a Run, and one of the Coordinator from a Coordinator to a result and a Coordinator.
-- The state outlives a raise, as the Python objects do. The state that a handler holds and the
-- entry of the table are one object in the code: on_task writes each change back to the table.
--
-- World: which call of the bus or the store raises is a function of the call's number, so that a
-- statement for all worlds is one for all patterns of failure. The n-th message takes its id and
-- its time from functions. The log has the calls that took effect. Times are milliseconds of the
-- monotonic clock, natural numbers; the code has seconds as floats.
--
-- Parameters: the pydantic validators of the result models (Validators), what an f-string prints
-- for the reason of a refuse (Printer), the timeouts and the global deadline (Config), and what
-- the inbox, the store and the clock give.
--
-- An adapter, the model behind the summarizer, the handler of an agent, lower-casing, the code
-- points of a string, str() and int() on other values than texts and numbers, whether a path
-- leads out of a directory by a symbolic link, and the order of floating-point scores are
-- parameters too. So are spaCy (its n-th load of a model and what a pipeline makes of a text and
-- of a batch), the HTTP client of the corpus builder (the status and the items of its n-th
-- request, in the shape that the API documents), the files of the corpus, and the vectors of an
-- embedding.
--
-- Fuel: the while loop of _advance runs on advance_fuel rounds. Each round that changes the state
-- lowers a measure (subtasks not yet published, retries left, deadlines passed and retries due at
-- the clock reading of the call) that is below advance_fuel at the start. Splitting a text into
-- blocks runs on its length, since each step takes away one character at least. A search of the
-- corpus builder makes as many attempts as the code, five.
--
-- Not modelled: the sleep and the shutdown event of the run loops (the Coordinator's takes a list
-- of rounds), the lock (each handler is one step), log lines, Redis, the SQL client (a repository
-- is a function on tables), the models behind the adapters, the HTTP framework, the evaluation
-- scripts, the loading of the word lists, the embedding and writing of the corpus, and in main.py
-- what only builds objects of libraries.
pub mod Base
pub mod Values
pub mod Schemas
pub mod Text
pub mod Plan
pub mod Core
pub mod Payloads
pub mod Coordinator
pub mod Agent
pub mod Ingestion
pub mod Summary
pub mod Quiz
pub mod Terms
pub mod Recommend
pub mod Adapters
pub mod Corpus
pub mod Db
pub mod Api
pub mod Main
pub mod Tests
