-- ===== src/Logger.antt =====
-- logger.go: the levels of a log, and a line of it without its fields. The noop logger, whose IsNoop is
-- true, has no lines: each call of a logger stands behind a test of IsNoop.
use vecto.Base.{Bool, List, [], ◌∷◌, Bytes, if◌then◌else◌}

pub data LogLevel : Type 0 where
  log_debug log_info log_warn log_error : LogLevel

pub record LogLine : Type 0 where
  pub level : LogLevel
  pub message : Bytes

abbrev pub unless_noop : Bool → LogLevel → Bytes → List LogLine
unless_noop noop level message =
    if noop then [] else record { level = level; message = message } ∷ []
