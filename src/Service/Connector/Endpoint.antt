-- ===== src/Service/Connector/Endpoint.antt =====
-- The endpoint that netServiceConnector.hpp connects to.
use mlnsdk.Base.{ℕ, ◌≡◌, refl, true, Option, some, List}
use mlnsdk.Service.Connector.{
  Connector, unresolved, resolved, keep_resolved, is_resolved, resolve_once, set_end_point,
  set_target_server, or_loopback,
}

-- After a first setEndPoint that resolved, setEndPoint for a target set later returns true and
-- keeps the first endpoint, whatever the later target would resolve to.
pub endpoint_stays :
    (resolve : List ℕ → ℕ → Option ℕ) (addr addr' : List ℕ) (port port' e : ℕ) (c : Connector)
    → c.endpoint ≡ unresolved
    → resolve (or_loopback addr) port ≡ some e
    → let c' = (set_end_point resolve addr port c).0 in
      set_end_point resolve addr' port' (set_target_server addr' port' c')
      ≡ (record (set_target_server addr' port' c) { endpoint = resolved e }, true)
unfolding set_end_point resolve_once keep_resolved is_resolved set_target_server
endpoint_stays resolve addr addr' port port' e c u r = rw u (rw r refl)
