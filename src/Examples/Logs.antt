-- ===== src/Examples/Logs.antt =====
-- A termination blob that fits.
use agentic_controller.Prelude.{ℕ, ◌≡◌, refl, none, some, List, [], ◌++◌, arith}
use agentic_controller.Text.{codes}
use agentic_controller.Message.{Message, text, runes, bytes}
use agentic_controller.Harness.Outcome.{failed, outcome_name, limit_none}
use agentic_controller.Harness.Stage.{TerminationBlob}
use agentic_controller.Harness.TerminationLog.{Encoding, write_termination_log}
use agentic_controller.Harness.TerminationLog.Trimmed.{
  IsCompact, Written, write_termination_log-Written,
}

abbrev literal : Message → List ℕ
literal (runes s) = s
literal (bytes s) = s
literal _ = []

-- an encoding of the stop reason alone
abbrev encoding : Encoding
encoding = record {
  marshal = λ b. some (codes "{" ++ literal b.stop_reason ++ codes "}");
  bytes_of = literal;
}

abbrev blob : TerminationBlob
blob = record {
  exit_code = 1;
  outcome = "failed";
  limit_reached = limit_none;
  handoff_status = text "";
  stop_reason = runes (codes "no such flag");
  maven_proxy_warning = text "";
  usage = none;
  verification = none;
}

blob-written : write_termination_log encoding blob ≡ some (codes "{no such flag}")
unfolding write_termination_log
blob-written = refl

encoding-IsCompact : IsCompact encoding
encoding-IsCompact = record {
  no_bytes = refl;
  bytes_of-bytes = λ s. refl;
  encoded = λ b. codes "{" ++ literal b.stop_reason ++ codes "}";
  marshal-small = λ a o known small handoff reason usage verdict. (refl, rw reason (omega arith));
}

known : blob.outcome ≡ outcome_name failed
unfolding outcome_name
known = refl

write_termination_log-Written_example : Written encoding blob (codes "{no such flag}")
write_termination_log-Written_example =
    write_termination_log-Written encoding encoding-IsCompact blob failed known (omega arith)
      (codes "{no such flag}") blob-written
