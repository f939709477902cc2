-- ===== src/Machine/Started.antt =====
-- What `proxifyStart` of cli/proxy_proxify.go needs and what holds once it has succeeded.
use http_capture.Machine.{Machine}
