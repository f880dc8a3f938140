-- ===== src/Utp/Config.antt =====
-- utpconn/options.go. Durations are nanoseconds; contexts only carry logging and are left out.
use discv5_streams.Prelude.{ℕ, ◌*◌, List, [], ◌∷◌}

pub record SocketConfig : Type 0 where
  pub write_timeout : ℕ
  pub initial_latency : ℕ
  pub packet_read_timeout : ℕ
  pub backlog_len : ℕ

abbrev pub SocketOption : Type 0
SocketOption = SocketConfig → SocketConfig

abbrev pub second : ℕ
second = 1_000_000_000

abbrev pub default_backlog_len : ℕ
default_backlog_len = 50

abbrev pub default_socket_config : SocketConfig
default_socket_config = record {
  write_timeout = 15 * second;
  initial_latency = 400_000_000;
  packet_read_timeout = 120 * second;
  backlog_len = default_backlog_len;
}

abbrev pub with_write_timeout : ℕ → SocketOption
with_write_timeout d c = record c { write_timeout = d }

abbrev pub with_initial_latency : ℕ → SocketOption
with_initial_latency d c = record c { initial_latency = d }

abbrev pub with_packet_read_timeout : ℕ → SocketOption
with_packet_read_timeout d c = record c { packet_read_timeout = d }

abbrev pub with_backlog_len : ℕ → SocketOption
with_backlog_len n c = record c { backlog_len = n }

-- The loop of `NewConn` over its options.
abbrev pub apply_options : List SocketOption → SocketConfig → SocketConfig
apply_options [] c = c
apply_options (o ∷ os) c = apply_options os (o c)
