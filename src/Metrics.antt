-- ===== src/Metrics.antt =====
-- `MetricsCollector` (src/agentvm/observe/metrics.py): both methods only write to the log.
use agent_vm.Base.{ℤ}
use agent_vm.Python.Text.{Text, codes}

pub data LogEntry : Type 0 where
  metrics_exporter_started : ℤ → Text → LogEntry
  metrics_exporter_stopped : LogEntry

-- the default of `host`
abbrev pub exporter_host : Text
exporter_host = codes "127.0.0.1"

abbrev pub start_exporter : ℤ → Text → LogEntry
start_exporter port host = metrics_exporter_started port host

abbrev pub stop_exporter : LogEntry
stop_exporter = metrics_exporter_stopped
