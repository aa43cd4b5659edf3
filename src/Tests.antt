-- ===== src/Tests.antt =====
-- The theorems at concrete inputs.
mod Machine
mod StorageAt
mod TracerAt
mod StatsAt
mod LoopAt
mod TuiAt
mod CommandsAt
mod FramesAt
mod OpenedAt
mod TerminalAt
mod RoutesAt
mod PanesAt
