-- ===== src/Logging.antt =====
-- logger.go: a logger's line, over the bytes that its writer has got. Its lock is left out.
use go_octopi.Base.{ℕ, List, ◌++◌, String}
use go_octopi.Base.Text.{codes}

-- A `Logger`: a nil `*structuredLogger`, one with a tag, or a discardLogger.
pub data Logger : Type 0 where
  nil_logger : Logger
  structured_logger : String → Logger
  discard_logger : Logger

-- NewLogger
abbrev pub new_logger : String → Logger
new_logger tag = structured_logger tag

-- NewDiscardLogger
abbrev pub new_discard_logger : Logger
new_discard_logger = discard_logger

-- Printf, with the text of the present time and the message that fmt.Sprintf gives
unfoldable pub printf : Logger → List ℕ → List ℕ → List ℕ → List ℕ
printf nil_logger timestamp message written = written
printf discard_logger timestamp message written = written
printf (structured_logger tag) timestamp message written =
    written ++ (timestamp ++ (codes " [" ++ (codes tag ++ (codes "] " ++ (message ++ codes "\n")))))
