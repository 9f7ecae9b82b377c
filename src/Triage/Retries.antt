-- ===== src/Triage/Retries.antt =====
-- Stored triages.
use aws_foundations.Base.Table.{pair_key, triple_key}
use aws_foundations.Triage.{Triage}
