-- ===== src/Core/Exec.antt =====
-- hermytt-core/src/exec.rs: a command run without a terminal. What its pipes hold for each read is
-- an argument; decoding with `from_utf8_lossy` (the standard library's) is the parameter `lossy`.
pub mod Laws
use hermytt.Prelude.{
  ℕ, ◌*◌, ◌-◌, Bool, true, false, ◌||◌, List, [], ◌∷◌, ◌++◌, Option, none, some, if◌then◌else◌, leb,
  length, take, is_empty,
}
use hermytt.Prelude.Text.{Text, codes, trim_end_by, is_space}

abbrev pub max_output : ℕ
max_output = 1024 * 1024

-- The loop over one stream, into a buffer of `max` bytes: for each read what the pipe holds, no
-- bytes at its end; `none` is a read that failed. A read takes what still fits.
unfoldable pub read_stream : ℕ → Text → List (Option Text) → Text
read_stream max buf [] = buf
read_stream max buf (none ∷ reads) = buf
read_stream max buf (some held ∷ reads) =
    let rest = read_stream max (buf ++ take (max - length buf) held) reads in
    if leb max (length buf) then buf else if is_empty held then buf else rest

pub record ExecResult : Type 0 where
  pub stdout : Text
  pub stderr : Text
  -- `none` is -1
  pub exit_code : Option ℕ
  pub truncated : Bool

-- What came of the process in its 30 seconds, with its exit code if it has one.
pub data Waited : Type 0 where
  exited : Option ℕ → Waited
  wait_failed timed_out : Waited

unfoldable pub exec :
    (Text → Text) → List (Option Text) → List (Option Text) → Waited → Option ExecResult
unfolding read_stream
exec lossy out err (exited code) =
    let stdout_buf = read_stream max_output [] out in
    let stderr_buf = read_stream max_output [] err in
    some (record {
      stdout = lossy stdout_buf;
      stderr = lossy stderr_buf;
      exit_code = code;
      truncated = leb max_output (length stdout_buf) || leb max_output (length stderr_buf);
    })
exec lossy out err wait_failed = none
exec lossy out err timed_out = none

unfoldable pub combined : ExecResult → Text
combined r =
    (if is_empty r.stderr
      then r.stdout
      else if is_empty r.stdout
      then r.stderr
      else trim_end_by is_space r.stdout ++ 10 ∷ r.stderr)
    ++ (if r.truncated then 10 ∷ codes "(output truncated)" else [])
