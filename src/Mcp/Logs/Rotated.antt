-- ===== src/Mcp/Logs/Rotated.antt =====
-- How long a log becomes.
use local_clash.Prelude.{ℕ, ◌<◌}
use local_clash.Mcp.Logs.{Log, size_or_zero}

-- Both files are shorter than the maximum and one line.
abbrev pub IsShort : ℕ → Log → Type 0
IsShort limit log = (size_or_zero log.size < limit) × (size_or_zero log.rotated < limit)
