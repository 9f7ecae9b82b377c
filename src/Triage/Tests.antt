-- ===== src/Triage/Tests.antt =====
-- Triages of concrete findings.
use aws_foundations.Base.{true, false, [], ◌∷◌, none, some, any}
use aws_foundations.Base.Table.{select, triple_key}
use aws_foundations.Triage.{
  PolicyContext, Facts, Report, Engine, evaluate_facts, decide_all, summarize, decisions_of,
  requests_of, replies_to,
}

triaging : Unit {0}
unfolding evaluate_facts decide_all summarize decisions_of requests_of replies_to any select
triaging = tt

abbrev context : PolicyContext
context = record {
  tenant = "acme";
  user = "ada";
  owner = "acme";
  environments = "staging" ∷ [];
  current_hash = "h";
}

abbrev report : Report
report = record { content_hash = "h"; is_complete = true }

abbrev finding : Facts
finding = record {
  id = "f1";
  source = "h";
  category = "secret";
  severity = "high";
  resource = "app.py";
  example = false;
  valid_path = true;
  evidence_class = "detector_or_heuristic";
}

abbrev permitting : Engine
permitting = record {
  parses = true;
  authorize = λ requests.
      some (
        record { errors = false; allowed = true } ∷ record { errors = false; allowed = true } ∷ []);
}

abbrev broken : Engine
broken = record { parses = false; authorize = λ requests. none }
