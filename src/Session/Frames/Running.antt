-- ===== src/Session/Frames/Running.antt =====
-- A start while a session runs, cli/main.go `recordStart`.
use http_capture.World.{World}
