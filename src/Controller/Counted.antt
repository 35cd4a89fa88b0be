-- ===== src/Controller/Counted.antt =====
-- The controller over the counting service (internal/service/metrics.go), as the plugin builds it.
use upcloud_csi.Service.Metrics.{Instrumented, instrumented_service}
use upcloud_csi.Controller.{Controller}

abbrev pub counted : {S : Type 0} → Controller S → Controller (Instrumented S)
counted c = record {
  zone = c.zone;
  node_host = c.node_host;
  max_volumes_per_node = c.max_volumes_per_node;
  svc = instrumented_service c.svc;
  storage_labels = c.storage_labels;
  library = c.library;
}
