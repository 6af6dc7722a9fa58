-- ===== src/Handlers/Monitored.antt =====
-- `MonitoredServer` of src/integration/monitor.rs: a server of src/core/server.rs with the metrics that it registers.
-- `Monitor` is another crate's; a metric that it makes is known by its kind and name.
use rust_network_system.Base.{ℕ, Bool, Option, String, ◌⊎◌}
use rust_network_system.Error.{Result}
use rust_network_system.Server.{ServerConfig, TcpServer, with_config}
use rust_network_system.Server
use rust_network_system.Monitor.{MetricCall}
use rust_network_system.Handlers.{SessionHandler, monitoring}

pub data Metric : Type 0 where
  counter gauge : String → Metric

pub record MonitoredServer : Type 0 where
  pub server : TcpServer
  pub connections_total : Metric
  pub active_connections : Metric
  pub messages_received_total : Metric
  pub messages_sent_total : Metric
  pub bytes_received_total : Metric
  pub bytes_sent_total : Metric

unfoldable pub new : ServerConfig → MonitoredServer
unfolding with_config
new c = record {
  server = with_config c;
  connections_total = counter "network_connections_total";
  active_connections = gauge "network_active_connections";
  messages_received_total = counter "network_messages_received_total";
  messages_sent_total = counter "network_messages_sent_total";
  bytes_received_total = counter "network_bytes_received_total";
  bytes_sent_total = counter "network_bytes_sent_total";
}

-- The result, the server, and the handler that it runs with.
unfoldable pub start :
    {A : Type 0}
    → MonitoredServer
    → (bad_address bind_failure : Option String) → SessionHandler A
    → Result (Unit {0}) × MonitoredServer × SessionHandler (MetricCall ⊎ A)
unfolding Server.start monitoring
start m bad_address bind_failure h =
    (let r = Server.start m.server bad_address bind_failure in
      (r.0, record m { server = r.1 }, monitoring h))

unfoldable pub is_running : MonitoredServer → Bool
is_running m = m.server.running

unfoldable pub connection_count : MonitoredServer → ℕ
connection_count m = m.server.connection_count
