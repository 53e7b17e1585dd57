-- ===== src/Data/Network.antt =====
-- networkRepo of internal/data/network.go over the calls of gorm on the table instance_network.
pub mod RoundTrip
use run_all_resource.Prelude.{
  ℕ, String, ℤ, Bool, true, false, Option, none, some, List, [], ◌∷◌, ◌==◌, map, if◌then◌else◌,
}
use run_all_resource.Go.{
  Error, sentinel, record_not_found, errors_is, Result, ok, err, M, pure, fail, attempt, ◌>>=◌,
  ◌>>◌,
}
use run_all_resource.Biz.Types.{NetworkBinding}
use run_all_resource.Biz.Repos.{NetworkRepo}

pub record NetworkRow : Type 0 where
  pub instance_id : ℤ
  pub port : ℕ
  pub service_name : String
  pub service_port : ℕ
  pub external_port : Option ℕ
  pub ingress_name : Option String
  pub protocol : String
  pub access_url : String
  pub enabled : Bool
  pub created_at : ℕ
  pub updated_at : ℕ

-- the map of columns that an update sets
pub record NetworkUpdates : Type 0 where
  pub service_name : String
  pub service_port : ℕ
  pub external_port : Option ℕ
  pub ingress_name : Option String
  pub protocol : String
  pub access_url : String
  pub enabled : Bool
  pub updated_at : ℕ

-- `"instance_id = ? AND port = ?"` and `"instance_id = ?"`
pub data Where : Type 0 where
  at_port : ℤ → ℕ → Where
  at_instance : ℤ → Where

-- The calls of gorm. An update and a deletion give the number of rows that they affect; `find` gives the
-- rows in the order of their ports.
pub record NetworkTable (W : Type 0) : Type 0 where
  pub create : NetworkRow → M W (Unit {0})
  pub updates : Where → NetworkUpdates → M W ℕ
  pub delete : Where → M W ℕ
  pub first : Where → M W NetworkRow
  pub find : Where → M W (List NetworkRow)

unfoldable pub row_of : NetworkBinding → NetworkRow
row_of b = record {
  instance_id = b.instance_id;
  port = b.port;
  service_name = b.service_name;
  service_port = b.service_port;
  external_port = b.external_port;
  ingress_name = b.ingress_name;
  protocol = b.protocol;
  access_url = b.access_url;
  enabled = b.enabled;
  created_at = 0;
  updated_at = 0;
}

unfoldable pub binding_of_row : NetworkRow → NetworkBinding
binding_of_row r = record {
  instance_id = r.instance_id;
  port = r.port;
  service_name = r.service_name;
  service_port = r.service_port;
  external_port = r.external_port;
  ingress_name = r.ingress_name;
  protocol = r.protocol;
  access_url = r.access_url;
  enabled = r.enabled;
  created_at = r.created_at;
  updated_at = r.updated_at;
}

abbrev updates_of : NetworkBinding → ℕ → NetworkUpdates
updates_of b time = record {
  service_name = b.service_name;
  service_port = b.service_port;
  external_port = b.external_port;
  ingress_name = b.ingress_name;
  protocol = b.protocol;
  access_url = b.access_url;
  enabled = b.enabled;
  updated_at = time;
}

-- `err == gorm.ErrRecordNotFound`, without unwrapping
unfoldable pub is_record_not_found : Error → Bool
is_record_not_found (sentinel record_not_found) = true
is_record_not_found _ = false

module _ {W : Type 0} where
  -- `if result.RowsAffected == 0 { return gorm.ErrRecordNotFound }`
  affected : ℕ → M W (Unit {0})
  affected rows = if rows == 0 then fail (sentinel record_not_found) else pure tt

  found_or_nil : Result NetworkRow → M W (Option NetworkBinding)
  found_or_nil (ok row) = pure (some (binding_of_row row))
  found_or_nil (err e) = if is_record_not_found e then pure none else fail e

module _ {W : Type 0} (table : NetworkTable W) (clock : W → ℕ) where
  unfoldable pub create_network_binding : NetworkBinding → M W (Unit {0})
  create_network_binding b = table.create (row_of b)

  unfoldable pub update_network_binding : NetworkBinding → M W (Unit {0})
  unfolding affected
  update_network_binding b w =
      let run : M W (Unit {0}) =
        table.updates (at_port b.instance_id b.port) (updates_of b (clock w)) >>= affected in
      run w

  unfoldable pub delete_network_binding : ℤ → ℕ → M W (Unit {0})
  unfolding affected
  delete_network_binding id port = table.delete (at_port id port) >>= affected

  unfoldable pub get_network_binding : ℤ → ℕ → M W (Option NetworkBinding)
  unfolding found_or_nil
  get_network_binding id port = attempt (table.first (at_port id port)) >>= found_or_nil

  unfoldable pub list_network_bindings : ℤ → M W (List NetworkBinding)
  list_network_bindings id = table.find (at_instance id) >>= λ rows. pure (map binding_of_row rows)

  unfoldable pub batch_delete_network_bindings : ℤ → M W (Unit {0})
  batch_delete_network_bindings id = table.delete (at_instance id) >>= λ rows. pure tt

  unfoldable pub network_repo : NetworkRepo W
  network_repo = record {
    create_network_binding = create_network_binding;
    update_network_binding = update_network_binding;
    delete_network_binding = delete_network_binding;
    get_network_binding = get_network_binding;
    list_network_bindings = list_network_bindings;
    batch_delete_network_bindings = batch_delete_network_bindings;
  }
