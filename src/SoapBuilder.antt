-- ===== src/SoapBuilder.antt =====
-- The SOAP documents that the CPE sends (src/SoapBuilder.cpp). A document is the list of its
-- bytes; `stream` joins the pieces that the code writes one after another.
pub mod Escape
pub mod Markup
pub mod Skeleton
use cpe_acs_connector_tr.Base.{
  ℕ, Bool, List, [], ◌∷◌, ◌++◌, ◌==◌, if◌then◌else◌, Bytes, codes, stream, length, to_string,
}
use cpe_acs_connector_tr.Types.{ParameterValue, ParameterInfo, TransferResult}
use cpe_acs_connector_tr.Transformer.{TransformerApi}
use cpe_acs_connector_tr.DataModel.{
  manufacturer, oui, product_class, serial_number, inform_parameters,
}

-- What `escape` appends for one byte.
pub escape_byte : ℕ → Bytes
escape_byte c =
    if c == b'&'
    then codes "&amp;"
    else if c == b'<'
    then codes "&lt;"
    else if c == b'>'
    then codes "&gt;"
    else if c == b'"'
    then codes "&quot;"
    else if c == 39
    then codes "&apos;"
    else c ∷ []

unfoldable pub escape : Bytes → Bytes
unfolding escape_byte
escape [] = []
escape (c ∷ value) = escape_byte c ++ escape value

unfoldable pub envelope : Bytes → Bytes → Bytes
envelope id body = stream (
    codes "<?xml version=\"1.0\" encoding=\"UTF-8\"?>"
    ∷ codes "<soap-env:Envelope xmlns:soap-env=\"http://schemas.xmlsoap.org/soap/envelope/\" "
    ∷ codes "xmlns:soap-enc=\"http://schemas.xmlsoap.org/soap/encoding/\" "
    ∷ codes "xmlns:xsd=\"http://www.w3.org/2001/XMLSchema\" "
    ∷ codes "xmlns:xsi=\"http://www.w3.org/2001/XMLSchema-instance\" "
    ∷ codes "xmlns:cwmp=\"urn:dslforum-org:cwmp-1-2\">"
    ∷ codes "<soap-env:Header><cwmp:ID soap-env:mustUnderstand=\"1\">"
    ∷ escape id
    ∷ codes "</cwmp:ID></soap-env:Header><soap-env:Body>"
    ∷ body
    ∷ codes "</soap-env:Body></soap-env:Envelope>"
    ∷ [])

-- The body of each loop over events, parameters or names, and the loop.
event_struct : Bytes → Bytes
event_struct event = stream (
    codes "<EventStruct><EventCode>"
    ∷ escape event
    ∷ codes "</EventCode><CommandKey></CommandKey></EventStruct>"
    ∷ [])

event_structs : List Bytes → Bytes
event_structs [] = []
event_structs (event ∷ events) = event_struct event ++ event_structs events

value_struct : ParameterValue → Bytes
value_struct p = stream (
    codes "<ParameterValueStruct><Name>"
    ∷ escape p.name
    ∷ codes "</Name><Value xsi:type=\""
    ∷ escape p.type
    ∷ codes "\">"
    ∷ escape p.value
    ∷ codes "</Value></ParameterValueStruct>"
    ∷ [])

value_structs : List ParameterValue → Bytes
value_structs [] = []
value_structs (p ∷ ps) = value_struct p ++ value_structs ps

info_struct : ParameterInfo → Bytes
info_struct p = stream (
    codes "<ParameterInfoStruct><Name>"
    ∷ escape p.name
    ∷ codes "</Name><Writable>"
    ∷ (if p.writable then codes "1" else codes "0")
    ∷ codes "</Writable></ParameterInfoStruct>"
    ∷ [])

info_structs : List ParameterInfo → Bytes
info_structs [] = []
info_structs (p ∷ ps) = info_struct p ++ info_structs ps

fault_struct : Bytes → Bytes
fault_struct name = stream (
    codes "<SetParameterValuesFault><ParameterName>"
    ∷ escape name
    ∷ codes "</ParameterName><FaultCode>9007</FaultCode><FaultString>Invalid parameter value"
    ∷ codes "</FaultString></SetParameterValuesFault>"
    ∷ [])

fault_structs : List Bytes → Bytes
fault_structs [] = []
fault_structs (name ∷ names) = fault_struct name ++ fault_structs names

-- `now` is the text of `isoTimeNow()` at the call.
module _ {S : Type 0} (api : TransformerApi S) where
  unfoldable pub inform : Bytes → S → Bytes → List Bytes → ℕ → Bytes
  unfolding envelope event_struct event_structs value_struct value_structs
  inform id s now events retry_count = envelope id (
      stream (
        codes "<cwmp:Inform><DeviceId>"
        ∷ codes "<Manufacturer>"
        ∷ escape (manufacturer api s)
        ∷ codes "</Manufacturer>"
        ∷ codes "<OUI>"
        ∷ escape (oui api s)
        ∷ codes "</OUI>"
        ∷ codes "<ProductClass>"
        ∷ escape (product_class api s)
        ∷ codes "</ProductClass>"
        ∷ codes "<SerialNumber>"
        ∷ escape (serial_number api s)
        ∷ codes "</SerialNumber>"
        ∷ codes "</DeviceId><Event soap-enc:arrayType=\"cwmp:EventStruct["
        ∷ to_string (length events)
        ∷ codes "]\">"
        ∷ event_structs events
        ∷ codes "</Event><MaxEnvelopes>1</MaxEnvelopes><CurrentTime>"
        ∷ now
        ∷ codes "</CurrentTime><RetryCount>"
        ∷ to_string retry_count
        ∷ codes "</RetryCount><ParameterList soap-enc:arrayType=\"cwmp:ParameterValueStruct["
        ∷ to_string (length (inform_parameters api s))
        ∷ codes "]\">"
        ∷ value_structs (inform_parameters api s)
        ∷ codes "</ParameterList></cwmp:Inform>"
        ∷ []))

unfoldable pub transfer_complete : Bytes → TransferResult → Bytes
unfolding envelope
transfer_complete id r = envelope id (
    stream (
      codes "<cwmp:TransferComplete><CommandKey>"
      ∷ escape r.command_key
      ∷ codes "</CommandKey><FaultStruct><FaultCode>"
      ∷ to_string r.fault_code
      ∷ codes "</FaultCode><FaultString>"
      ∷ escape r.fault_string
      ∷ codes "</FaultString></FaultStruct><StartTime>"
      ∷ escape r.start_time
      ∷ codes "</StartTime><CompleteTime>"
      ∷ escape r.complete_time
      ∷ codes "</CompleteTime></cwmp:TransferComplete>"
      ∷ []))

unfoldable pub get_parameter_values_response : Bytes → List ParameterValue → Bytes
unfolding envelope value_struct value_structs
get_parameter_values_response id values = envelope id (
    stream (
      codes "<cwmp:GetParameterValuesResponse>"
      ∷ codes "<ParameterList soap-enc:arrayType=\"cwmp:ParameterValueStruct["
      ∷ to_string (length values)
      ∷ codes "]\">"
      ∷ value_structs values
      ∷ codes "</ParameterList></cwmp:GetParameterValuesResponse>"
      ∷ []))

-- The status is the default argument, 0, at every call.
unfoldable pub set_parameter_values_response : Bytes → ℕ → Bytes
unfolding envelope
set_parameter_values_response id status = envelope id (
    stream (
      codes "<cwmp:SetParameterValuesResponse><Status>"
      ∷ to_string status
      ∷ codes "</Status></cwmp:SetParameterValuesResponse>"
      ∷ []))

unfoldable pub get_parameter_names_response : Bytes → List ParameterInfo → Bytes
unfolding envelope info_struct info_structs
get_parameter_names_response id values = envelope id (
    stream (
      codes "<cwmp:GetParameterNamesResponse>"
      ∷ codes "<ParameterList soap-enc:arrayType=\"cwmp:ParameterInfoStruct["
      ∷ to_string (length values)
      ∷ codes "]\">"
      ∷ info_structs values
      ∷ codes "</ParameterList></cwmp:GetParameterNamesResponse>"
      ∷ []))

unfoldable pub reboot_response : Bytes → Bytes
unfolding envelope
reboot_response id = envelope id (codes "<cwmp:RebootResponse/>")

unfoldable pub download_response : Bytes → ℕ → Bytes → Bytes → Bytes
unfolding envelope
download_response id status start complete = envelope id (
    stream (
      codes "<cwmp:DownloadResponse><Status>"
      ∷ to_string status
      ∷ codes "</Status><StartTime>"
      ∷ escape start
      ∷ codes "</StartTime><CompleteTime>"
      ∷ escape complete
      ∷ codes "</CompleteTime></cwmp:DownloadResponse>"
      ∷ []))

unfoldable pub fault : Bytes → ℕ → Bytes → List Bytes → Bytes
unfolding envelope fault_struct fault_structs
fault id code message parameter_faults = envelope id (
    stream (
      codes "<soap-env:Fault><faultcode>Client</faultcode><faultstring>CWMP fault</faultstring>"
      ∷ codes "<detail><cwmp:Fault><FaultCode>"
      ∷ to_string code
      ∷ codes "</FaultCode><FaultString>"
      ∷ escape message
      ∷ codes "</FaultString>"
      ∷ fault_structs parameter_faults
      ∷ codes "</cwmp:Fault></detail></soap-env:Fault>"
      ∷ []))
