-- ===== src/Executor/Engine/Masking.antt =====
-- What `Run` writes to the log once it has the secrets.
use forgelet.Prelude.{List, text_key}
use forgelet.Executor.Plan.{Plan}
use forgelet.Executor.Command.{Command}
