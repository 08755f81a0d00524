-- ===== src/Extern/Host.antt =====
-- What the engine asks of the system it runs on: files, programs, base64, regular expressions and
-- the yara library. They are parameters of the model.
use rips.Prelude.{ℕ, Bool, String, Option, List}

-- How the program of a plugin ends: it could not be made or started, it exited with a status, or
-- waiting for it failed otherwise.
pub data PluginRun : Type 0 where
  not_started : PluginRun
  exited : ℕ → PluginRun
  wait_error : PluginRun

-- The answers of the system, which may depend on the arguments only: within one evaluation the
-- files and programs do not change.
pub record Host : Type 0 where
  -- `access(2)` for execution and for reading.
  pub is_executable : String → Bool
  pub is_readable : String → Bool
  -- `cmd.Run()` ends with status 0.
  pub run_ok : String → List String → Bool
  -- `base64.StdEncoding.Decode`.
  pub decode_base64 : String → Option (List ℕ)
  -- The program of a plugin on the bytes of the message.
  pub run_plugin : String → List ℕ → PluginRun
  -- The file of a rule is there and the yara library compiles it.
  pub yara_compiles : String → Bool
  -- `yr.Scan`: the number of rules that match, or an error.
  pub yara_scan : String → List ℕ → Option ℕ
  -- `regexp.Compile` gives no error.
  pub regexp_compiles : String → Bool
  -- `regexp.MatchString`; the compiled expression matches alike.
  pub regexp_matches : String → String → Bool
  -- The complete lines of a file, or none if it cannot be opened.
  pub read_lines : String → Option (List String)
