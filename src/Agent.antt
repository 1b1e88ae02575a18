-- ===== src/Agent.antt =====
-- app/internal/agent: the agent's state machine, its loop over LLM rounds, and its tools.
pub mod Fsm
pub mod LoopDetect
pub mod ToolName
pub mod Tools
pub mod Loop
