-- ===== src/Examples.antt =====
-- Runs of the definitions at concrete inputs.
mod ConfigRuns
mod ExtractRuns
mod AnalysisRuns
mod TextRuns
mod ImportRuns
mod ObjectRuns
mod FindingRuns
mod FsmRuns
mod LoopRuns
mod ToolRuns
mod Hundredths
mod MemoryRuns
mod ContextRuns
mod SqlRuns
mod DateRuns
mod IoRuns
mod ChunkRuns
