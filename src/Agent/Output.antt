-- ===== src/Agent/Output.antt =====
-- internal/agent/service.go: `truncateOutput` and `outputExcerpt`. Whether bytes are valid UTF-8 is
-- a parameter, as `utf8.Valid` is not part of the repository.
pub mod Bounds
use aisummoner.Prelude.{
  ℕ, zero, suc, ◌+◌, ◌-◌, ◌*◌, Bool, true, false, Option, none, some, ◌++◌, if◌then◌else◌, leb, ltb,
  length, take,
}
use aisummoner.Store.Data.{Bytes}

abbrev pub max_tool_output_bytes : ℕ
max_tool_output_bytes = 256 * 1024

abbrev pub max_output_excerpt : ℕ
max_output_excerpt = 8192

pub record Truncated : Type 0 where
  pub stdout : Bytes
  pub stderr : Bytes
  pub truncated : Bool

unfoldable pub truncate_output : Bytes → Bytes → ℕ → Truncated
truncate_output stdout stderr maximum =
    let stdout_limit = if ltb maximum (length stdout) then maximum else length stdout in
    let remaining = maximum - stdout_limit in
    let stderr_limit = if ltb remaining (length stderr) then remaining else length stderr in
    if leb (length stdout + length stderr) maximum
    then record { stdout = stdout; stderr = stderr; truncated = false }
    else record {
      stdout = take stdout_limit stdout;
      stderr = take stderr_limit stderr;
      truncated = true;
    }

-- The loop that drops the last byte while the bytes are not valid; `n` is their number.
unfoldable pub trim_invalid : (Bytes → Bool) → ℕ → Bytes → Bytes
trim_invalid valid zero bytes = take 0 bytes
trim_invalid valid (suc n) bytes =
    let rest = trim_invalid valid n bytes in
    if valid (take (suc n) bytes) then take (suc n) bytes else rest

-- The failure code, or else the output.
abbrev pub excerpt_source : Bytes → Bytes → Option Bytes → Bytes
excerpt_source stdout stderr none = stdout ++ stderr
excerpt_source stdout stderr (some code) = code

abbrev pub excerpt_of : (Bytes → Bool) → Bytes → Bytes
excerpt_of valid bytes =
    if ltb max_output_excerpt (length bytes)
    then trim_invalid valid max_output_excerpt bytes
    else bytes

-- `stdout`, `stderr` and the failure code are those of a `ToolResult`.
unfoldable pub output_excerpt : (Bytes → Bool) → Bytes → Bytes → Option Bytes → Bytes
output_excerpt valid stdout stderr failure = excerpt_of valid (excerpt_source stdout stderr failure)
