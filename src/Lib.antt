-- ===== src/Lib.antt =====
-- The agent core of shell-agent-v2: a desktop assistant that keeps sessions of records, asks an LLM
-- backend in rounds, runs the tools that it calls behind an approval gate, and extracts memories in
-- the background.
--
-- Session.antt and Llm.antt hold the data that the parts exchange: the records of
-- app/internal/memory/memory.go and the messages of app/internal/llm/backend.go.
-- Text.antt has Go strings as lists of bytes and the functions of package strings.
--
-- Agent/Fsm.antt is the state machine of app/internal/agent/agent.go: one definition for each region
-- that runs under the mutex (SendWithAttachments, Abort, postResponseTasks, the clean-up of the
-- extraction goroutine, resetStateMachine, LoadSession, and the gate of DeleteSession,
-- ExportSession and ImportSession). Agent/Fsm/World.antt counts the goroutines around it; an
-- interleaving is a sequence of actions, and reachability is an indexed data type.
--
-- Agent/Loop.antt is agentLoop. The backend, the context builder, the clock and the tools are fields of
-- a record that the definitions take. Its rounds are recursion on the number that the settings allow,
-- as in the code, so no fuel is added. Agent/LoopDetect.antt is loop_detect.go.
--
-- Agent/Tools.antt is executeTool with the descriptor registry, the MCP guardians and the shell
-- tools, and the approval gate; Agent/ToolName.antt is the canonical names, the parts of an MCP
-- tool's name, and the migration of the approval settings. A Go map is an
-- association list in an order of iteration; what a theorem says holds for every order.
--
-- Memory/Lifecycle.antt is app/internal/memory/lifecycle.go; Memory/Store.antt, Memory/Edit.antt and
-- Memory/Prompt.antt are the operations that session_memory.go and global_memory.go share, and those
-- that only one of them has. Memory/Floats.antt names what is taken from float64: the definitions
-- work over any type of numbers, and the theorems that need an order name its laws.
--
-- Context/Render.antt, Context/Cache.antt, Context/RawWindow.antt, Context/Tiers.antt and
-- Context/Build.antt are app/internal/contextbuild. Build is composed as in the code: the walk over
-- the raw records, the anchors, the dead topics, the far and the near tier, and the assembly. SHA-256, the guard and the summarizer are parameters.
--
-- Sandbox.antt is the bounded output buffer of app/internal/sandbox/limitedbuffer.go, and Retry.antt the
-- retry loop of app/internal/llm/retry.go, which recurses on the attempts that are left.
--
-- Chunker.antt is app/internal/analysis/textchunker.go. A line is broken with its own length as fuel,
-- which is enough since every round takes a byte.
--
-- Dict.antt has Go's maps with string keys. Findings.antt and Findings/Similar.antt are
-- app/internal/findings/findings.go. Objects.antt is app/internal/objstore/objstore.go, and
-- Objects/Attach.antt its data URLs. SessionIo.antt and its children are app/internal/sessionio: the
-- import of a bundle calls the object store, and rolls its calls back where it fails. The loops over
-- titles and ids run on fuel that is the number of rounds in the code.
--
-- TextTools.antt is app/internal/agent/text_tools.go, and Summarizer.antt with Summarizer/Report.antt
-- app/internal/analysis/summarizer.go: the loop over the windows runs on the number of rows as fuel,
-- which is enough since a window takes at least one.
--
-- Extraction.antt and its children are app/internal/agent/agent_extract.go with
-- app/internal/memory/extraction.go: Extraction/Apply.antt calls Add and Touch of Memory/Store.antt.
--
-- Config.antt is app/internal/config (config.go, profile.go). DisambiguateName loops without a bound;
-- the model runs on one round more than there are taken names.
--
-- Analysis.antt is the SQL that app/internal/analysis (engine.go, readonly.go) builds. What DuckDB
-- does with a statement is not modelled; Analysis/Quoting.antt has a reader of quotation marks.
--
-- ResolveDate.antt is app/internal/chat/resolvedate.go; the calendar is a parameter. The product of a
-- count and its unit wraps around at 64 bits.
--
-- Examples.antt and its children run the definitions at concrete inputs; Examples/Hundredths.antt has
-- numbers that obey the laws which the theorems ask of float64.
--
-- Not modelled: the user interface and its bindings, network and process I/O (backends, MCP servers,
-- containers), files, logging and the events that only inform the user. Times are numbers, 0 being
-- the zero time, and the caller passes what time.Now returns.
pub mod Agent
pub mod Analysis
pub mod Base
pub mod Chunker
pub mod Config
pub mod Context
pub mod Dict
pub mod Examples
pub mod Extraction
pub mod Findings
pub mod Llm
pub mod Memory
pub mod Objects
pub mod ResolveDate
pub mod Retry
pub mod Sandbox
pub mod Session
pub mod SessionIo
pub mod Summarizer
pub mod Text
pub mod TextTools
