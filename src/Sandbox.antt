-- ===== src/Sandbox.antt =====
-- The bounded output buffer (app/internal/sandbox/limitedbuffer.go).
pub mod Writes
use shell_agent_v.Base.{
  ℕ, ◌+◌, ◌-◌, Bool, true, false, not, List, [], ◌∷◌, ◌++◌, length, take, ltb, leb, ◌==◌,
  if◌then◌else◌,
}
use shell_agent_v.Text.{Text, codes}
use shell_agent_v.Memory.Prompt.{decimal}

pub record LimitedBuffer : Type 0 where
  pub buf : Text
  pub cap : ℕ
  pub truncated : Bool

-- A negative capacity counts as 0; `default_max` is DefaultMaxOutputBytes.
unfoldable pub new_limited_buffer : ℕ → ℕ → LimitedBuffer
new_limited_buffer default_max cap = record {
  buf = [];
  cap = if cap == 0 then default_max else cap;
  truncated = false;
}

-- The number of bytes that Write reports, and the buffer after it.
unfoldable pub write : Text → LimitedBuffer → ℕ × LimitedBuffer
write p l =
    let remaining = l.cap - length l.buf in
    if leb l.cap (length l.buf)
    then (length p, record l { truncated = true })
    else if ltb remaining (length p)
    then (length p, record l { buf = l.buf ++ take remaining p; truncated = true })
    else (length p, record l { buf = l.buf ++ p })

unfoldable pub to_string : LimitedBuffer → Text
unfolding decimal
to_string l =
    if not l.truncated
    then l.buf
    else l.buf ++ (codes "\n... [output truncated at " ++ (decimal l.cap ++ codes " bytes]"))
