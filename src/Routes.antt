-- ===== src/Routes.antt =====
-- routes.go: the three routes of the listener.
use tps.Base.{Str, bytes, List, [], ◌∷◌}

pub record Route : Type 0 where
  pub path : Str
  pub method : Str
  pub name : Str

abbrev pub lrp_status : Str
lrp_status = bytes "LRPStatus"

abbrev pub lrp_stats : Str
lrp_stats = bytes "LRPStats"

abbrev pub bulk_lrp_status : Str
bulk_lrp_status = bytes "BulkLRPStatus"

abbrev pub get_method : Str
get_method = bytes "GET"

-- `Routes`
unfoldable pub routes : List Route
routes =
    record {
      path = bytes "/v1/bulk_actual_lrp_status";
      method = get_method;
      name = bulk_lrp_status;
    }
    ∷ record { path = bytes "/v1/actual_lrps/:guid"; method = get_method; name = lrp_status }
    ∷ record { path = bytes "/v1/actual_lrps/:guid/stats"; method = get_method; name = lrp_stats }
    ∷ []
