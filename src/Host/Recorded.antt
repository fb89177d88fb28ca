-- ===== src/Host/Recorded.antt =====
-- A host that also records the actions that are called on it, in order.
use esphome_rf_cloner.Base.{String, List, [], ◌∷◌, ◌++◌}
use esphome_rf_cloner.Base.Dict.{Dict}
use esphome_rf_cloner.Python.Value.{Value}
use esphome_rf_cloner.Host.{Host}

-- An action: its domain, its service and its data.
pub record Call : Type 0 where
  pub domain : String
  pub service : String
  pub argument : Dict String Value

abbrev pub recorded : Host → Host
recorded H = record H {
  State = H.State × List Call;
  get_entry = λ s. H.get_entry s.0;
  has_service = λ s. H.has_service s.0;
  async_call = λ domain service argument response s.
      let (r, s') = H.async_call domain service argument response s.0 in
      (r, (s', s.1 ++ record { domain = domain; service = service; argument = argument } ∷ []));
  monotonic = λ s. H.monotonic s.0;
  sleep = λ n s. (H.sleep n s.0, s.1);
  utcnow = λ s. H.utcnow s.0;
  store_load = λ s. H.store_load s.0;
  request_refresh = λ s. (H.request_refresh s.0, s.1);
  store_save = λ key content s. (H.store_save key content s.0, s.1);
  store_remove = λ key s. (H.store_remove key s.0, s.1);
}
