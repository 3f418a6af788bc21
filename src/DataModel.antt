-- ===== src/DataModel.antt =====
-- The data model that CWMP reads and writes (src/DataModel.cpp), over a `TransformerApi`.
use cpe_acs_connector_tr.Base.{
  Bool, true, false, List, [], ◌∷◌, Option, none, some, Bytes, codes, head?,
}
use cpe_acs_connector_tr.Types.{ParameterValue}
use cpe_acs_connector_tr.Transformer.{TransformerApi}

-- The parameters that every Inform carries.
abbrev pub inform_names : List Bytes
inform_names =
    codes "Device.DeviceInfo.Manufacturer"
    ∷ codes "Device.DeviceInfo.ManufacturerOUI"
    ∷ codes "Device.DeviceInfo.ProductClass"
    ∷ codes "Device.DeviceInfo.ModelName"
    ∷ codes "Device.DeviceInfo.SerialNumber"
    ∷ codes "Device.DeviceInfo.SoftwareVersion"
    ∷ codes "Device.RootDataModelVersion"
    ∷ codes "Device.ManagementServer.URL"
    ∷ codes "Device.ManagementServer.PeriodicInformEnable"
    ∷ codes "Device.ManagementServer.PeriodicInformInterval"
    ∷ codes "Device.ManagementServer.ConnectionRequestURL"
    ∷ []

-- `value ? value->value : fallback`.
abbrev pub value_or_text : Option ParameterValue → Bytes → Bytes
value_or_text none fallback = fallback
value_or_text (some v) fallback = v.value

module _ {S : Type 0} (api : TransformerApi S) where
  unfoldable pub get : S → Bytes → Option ParameterValue
  get s path = head? (api.get_parameter_values s (path ∷ []) false).0

  unfoldable pub get_internal : S → Bytes → Option ParameterValue
  get_internal s path = head? (api.get_parameter_values s (path ∷ []) true).0

  unfoldable pub get_many : S → List Bytes → List ParameterValue × List Bytes
  get_many s paths = api.get_parameter_values s paths false

  -- The result, the error text and the new state.
  unfoldable pub set : S → ParameterValue → Bool × Bytes × S
  set s value =
      let (result, s') = api.set_parameter_values s (value ∷ []) [] in
      (result.success, result.error, s')

  unfoldable pub inform_parameters : S → List ParameterValue
  inform_parameters s = (api.get_parameter_values s inform_names false).0

  unfoldable pub value_or : S → Bytes → Bytes → Bytes
  unfolding get
  value_or s path fallback = value_or_text (get s path) fallback

  unfoldable pub manufacturer : S → Bytes
  unfolding value_or
  manufacturer s = value_or s (codes "Device.DeviceInfo.Manufacturer") (codes "dev")

  unfoldable pub oui : S → Bytes
  unfolding value_or
  oui s = value_or s (codes "Device.DeviceInfo.ManufacturerOUI") (codes "000000")

  unfoldable pub product_class : S → Bytes
  unfolding value_or
  product_class s = value_or s (codes "Device.DeviceInfo.ProductClass") (codes "OpenWrt-RPi5")

  unfoldable pub serial_number : S → Bytes
  unfolding value_or
  serial_number s = value_or s (codes "Device.DeviceInfo.SerialNumber") (codes "UNKNOWN")
