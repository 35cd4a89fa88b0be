-- ===== src/Server/Once.antt =====
-- The metrics are registered once (internal/server/metrics.go).
use upcloud_csi.Base.{
  ◌≡◌, refl, ap, ◌∙◌, Bool, true, false, not, ◌&&◌, List, [], ◌∷◌, map, String, str_eq, Bool-cases,
  inl, inr,
}
use upcloud_csi.Go.{ok, for_each}
use upcloud_csi.Server.Metrics.{
  Collector, process_collector, go_collector, counter_vec, gauge_vec, histogram_vec, Registry,
  collectors, register_all, init_metrics,
}

-- The name that a registry tells collectors apart by.
abbrev pub collector_name : Collector → String
collector_name process_collector = "process"
collector_name go_collector = "go"
collector_name (counter_vec name labels) = name
collector_name (gauge_vec name labels) = name
collector_name (histogram_vec name labels buckets) = name

-- What a collector is, but for its buckets.
pub data Kind : Type 0 where
  of_process of_go : Kind
  counts gauges histograms : String → List String → Kind

abbrev pub kind_of : Collector → Kind
kind_of process_collector = of_process
kind_of go_collector = of_go
kind_of (counter_vec name labels) = counts name labels
kind_of (gauge_vec name labels) = gauges name labels
kind_of (histogram_vec name labels buckets) = histograms name labels

abbrev pub is_new : Collector → List Collector → Bool
is_new c [] = true
is_new c (d ∷ ds) = not (str_eq (collector_name c) (collector_name d)) && is_new c ds

-- What is relied on of a registry: a new one has no collectors, and takes a collector whose name it
-- does not have; and a flag that is set stays so.
pub record RegistryLaws {S : Type 0} (m : Registry S) : Type 0 where
  pub registered : S → List Collector
  pub emptied : S → S
  pub added : Collector → S → S
  pub news : (s : S) → m.new_registry s ≡ (ok tt, emptied s)
  pub news_empty : (s : S) → registered (emptied s) ≡ []
  pub registers :
      (c : Collector) (s : S)
      → is_new c (registered s) ≡ true
      → m.must_register c s ≡ (ok tt, added c s)
  pub registers_added : (c : Collector) (s : S) → registered (added c s) ≡ c ∷ registered s
  pub once_set : (s : S) → m.once (m.set_once s) ≡ true
  pub set_registered : (s : S) → registered (m.set_once s) ≡ registered s

module _ {S : Type 0} (m : Registry S) (laws : RegistryLaws m) where
  open laws use {registered, emptied, added}

  abbrev all_new : List Collector → List Collector → Bool
  all_new [] ds = true
  all_new (c ∷ cs) ds = is_new c ds && all_new cs (c ∷ ds)

  abbrev onto : List Collector → List Collector → List Collector
  onto [] ds = ds
  onto (c ∷ cs) ds = onto cs (c ∷ ds)

  register_each :
      (cs ds : List Collector) (s : S)
      → registered s ≡ ds
      → all_new cs ds ≡ true
      → (t : S) × (for_each m.must_register cs s ≡ (ok tt, t)) × (registered t ≡ onto cs ds)
  register_each [] ds s has new = (s, refl, has)
  register_each (c ∷ cs) ds s has new = elim (Bool-cases (is_new c ds)) [
    | inr old ↦ absurd (cc (rw old at new))
    | inl yes' ↦
        let first : is_new c (registered s) ≡ true = rw has yes' in
        let (t, rest, has') =
          register_each cs (c ∷ ds) (added c s) (laws.registers_added c s ∙ ap (λ z. c ∷ z) has)
            (rw yes' at new) in
        (t, rw (laws.registers c s first) rest, has')
  ]

  -- Over a registry that is empty when it is new and takes every collector of a name that it does not
  -- have: from a process in which the metrics were never asked for, `initMetrics` succeeds, and it
  -- then has exactly seven collectors, each once: the process's and Go's own; the number, the duration
  -- and the number in flight of the CSI operations; and the number and the duration of the requests to
  -- the API, of these kinds and under their names and labels. From then on it changes nothing, so that
  -- the collectors that were handed out stay the registered ones.
  pub init_metrics_once :
      (s : S)
      → m.once s ≡ false
      → (t : S) × (init_metrics m s ≡ (ok tt, t))
        × (map kind_of (registered t) ≡ (
            histograms "upcloud_api_request_duration_seconds" ("method" ∷ [])
            ∷ counts "upcloud_api_requests_total" ("method" ∷ "result" ∷ [])
            ∷ gauges "csi_plugin_operations_in_flight" ("method" ∷ [])
            ∷ histograms "csi_plugin_operation_duration_seconds" ("method" ∷ [])
            ∷ counts "csi_plugin_operations_total" ("method" ∷ "status" ∷ [])
            ∷ of_go
            ∷ of_process
            ∷ []))
        × (init_metrics m t ≡ (ok tt, t))
  unfolding init_metrics register_all
  init_metrics_once s never =
      let (t, each, has) = register_each collectors [] (emptied s) (laws.news_empty s) refl in
      (
        m.set_once t,
        rw (never, laws.news s, each) refl,
        ap (map kind_of) (laws.set_registered t ∙ has),
        rw (laws.once_set t) refl,
      )
