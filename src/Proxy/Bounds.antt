-- ===== src/Proxy/Bounds.antt =====
-- server/cmd/golem-proxy/main.go and server/internal/ingest/grpc.go: the bound on a message.
use golem_harness.Base.{ℕ, ◌+◌, ◌<◌, ◌^◌, ◌≡◌, none, some, ltb, arith, if◌then◌else◌}
use golem_harness.Base.Int.{pos}
use golem_harness.Proxy.{server_options, with_headroom}

-- The server takes messages of up to 4096 bytes more than a payload may have, where that sum is an
-- int64; where it is not, it wraps below zero and the server gets no bound of its own.
pub message_bound :
    (n : ℕ)
    → n < 2 ^ 63
    → server_options (with_headroom (pos n))
      ≡ (if ltb (n + 4096) (2 ^ 63) then some (pos (n + 4096)) else none)
unfolding server_options
message_bound n small = ground arith
