-- ===== src/SoapBuilder/Skeleton.antt =====
-- The markup of each document, against the number of the items that it lists.
use cpe_acs_connector_tr.Base.{
  ℕ, zero, suc, true, List, [], ◌∷◌, ◌++◌, ◌≡◌, refl, Bytes, codes, length, all,
}
use cpe_acs_connector_tr.Types.{ParameterValue, ParameterInfo}
use cpe_acs_connector_tr.Transformer.{TransformerApi}
use cpe_acs_connector_tr.DataModel.{inform_parameters}
use cpe_acs_connector_tr.SoapBuilder.{
  event_struct, event_structs, value_struct, value_structs, info_struct, info_structs, fault_struct,
  fault_structs, inform, get_parameter_values_response, get_parameter_names_response, fault,
}
use cpe_acs_connector_tr.SoapBuilder.Markup.{
  text, skeleton, text_data, is_plain, skeleton-plain, skeleton-info_flag, silent,
}

-- `n` copies of a text.
abbrev pub copies : ℕ → Bytes → Bytes
copies zero p = []
copies (suc n) p = p ++ copies n p

-- The markup of the envelope, around the body's.
abbrev pub enclosed : Bytes → Bytes
enclosed body =
    codes "<?xml version=\"\" encoding=\"\"?>"
    ++ (codes "<soap-env:Envelope xmlns:soap-env=\"\" xmlns:soap-enc=\"\" xmlns:xsd=\"\" "
        ++ (codes "xmlns:xsi=\"\" xmlns:cwmp=\"\"><soap-env:Header>"
            ++ (codes "<cwmp:ID soap-env:mustUnderstand=\"\"></cwmp:ID></soap-env:Header>"
                ++ (codes "<soap-env:Body>"
                    ++ (body ++ codes "</soap-env:Body></soap-env:Envelope>")))))

abbrev pub event_markup : Bytes
event_markup = codes "<EventStruct><EventCode></EventCode><CommandKey></CommandKey></EventStruct>"

abbrev pub value_markup : Bytes
value_markup =
    codes "<ParameterValueStruct><Name></Name><Value xsi:type=\"\"></Value></ParameterValueStruct>"

abbrev pub info_markup : Bytes
info_markup = codes "<ParameterInfoStruct><Name></Name><Writable></Writable></ParameterInfoStruct>"

abbrev pub fault_markup : Bytes
fault_markup =
    codes "<SetParameterValuesFault><ParameterName></ParameterName><FaultCode></FaultCode>"
    ++ codes "<FaultString></FaultString></SetParameterValuesFault>"

skeleton-event_structs :
    (events : List Bytes) (rest : Bytes)
    → skeleton text (event_structs events ++ rest)
      ≡ copies (length events) event_markup ++ skeleton text rest
unfolding event_structs event_struct skeleton codes
skeleton-event_structs [] rest = refl
skeleton-event_structs (e ∷ es) rest = simp (silent, skeleton-event_structs es rest)

skeleton-value_structs :
    (ps : List ParameterValue) (rest : Bytes)
    → skeleton text (value_structs ps ++ rest)
      ≡ copies (length ps) value_markup ++ skeleton text rest
unfolding value_structs value_struct skeleton codes
skeleton-value_structs [] rest = refl
skeleton-value_structs (p ∷ ps) rest = simp (silent, skeleton-value_structs ps rest)

skeleton-info_structs :
    (ps : List ParameterInfo) (rest : Bytes)
    → skeleton text (info_structs ps ++ rest) ≡ copies (length ps) info_markup ++ skeleton text rest
unfolding info_structs info_struct skeleton codes
skeleton-info_structs [] rest = refl
skeleton-info_structs (p ∷ ps) rest =
    simp (silent, skeleton-info_flag, skeleton-info_structs ps rest)

skeleton-fault_structs :
    (names : List Bytes) (rest : Bytes)
    → skeleton text (fault_structs names ++ rest)
      ≡ copies (length names) fault_markup ++ skeleton text rest
unfolding fault_structs fault_struct skeleton codes
skeleton-fault_structs [] rest = refl
skeleton-fault_structs (n ∷ ns) rest = simp (silent, skeleton-fault_structs ns rest)

-- No identifier, parameter name, type or value can add to the markup of a
-- GetParameterValuesResponse or change it: it holds one ParameterValueStruct for each value, in
-- the fixed envelope.
pub skeleton-get_parameter_values_response :
    (id : Bytes) (values : List ParameterValue)
    → skeleton text (get_parameter_values_response id values)
      ≡ enclosed (
          codes "<cwmp:GetParameterValuesResponse><ParameterList soap-enc:arrayType=\"\">"
          ++ (copies (length values) value_markup
              ++ codes "</ParameterList></cwmp:GetParameterValuesResponse>"))
unfolding get_parameter_values_response skeleton codes
skeleton-get_parameter_values_response id values = simp (silent, skeleton-value_structs)

-- The same of a GetParameterNamesResponse, with one ParameterInfoStruct for each parameter.
pub skeleton-get_parameter_names_response :
    (id : Bytes) (values : List ParameterInfo)
    → skeleton text (get_parameter_names_response id values)
      ≡ enclosed (
          codes "<cwmp:GetParameterNamesResponse><ParameterList soap-enc:arrayType=\"\">"
          ++ (copies (length values) info_markup
              ++ codes "</ParameterList></cwmp:GetParameterNamesResponse>"))
unfolding get_parameter_names_response skeleton codes
skeleton-get_parameter_names_response id values = simp (silent, skeleton-info_structs)

-- The same of a fault, with one SetParameterValuesFault for each parameter that failed.
pub skeleton-fault :
    (id : Bytes) (n : ℕ) (message : Bytes) (names : List Bytes)
    → skeleton text (fault id n message names)
      ≡ enclosed (
          codes "<soap-env:Fault><faultcode></faultcode><faultstring></faultstring><detail>"
          ++ (codes "<cwmp:Fault><FaultCode></FaultCode><FaultString></FaultString>"
              ++ (copies (length names) fault_markup
                  ++ codes "</cwmp:Fault></detail></soap-env:Fault>")))
unfolding fault skeleton codes
skeleton-fault id n message names = simp (silent, skeleton-fault_structs)

-- The markup of an Inform, if the clock's text holds no `<` and no quote: one EventStruct for
-- each event and one ParameterValueStruct for each parameter of the data model.
pub skeleton-inform :
    {S : Type 0} (api : TransformerApi S) (id : Bytes) (s : S) (now : Bytes) (events : List Bytes)
    (retry_count : ℕ)
    → all is_plain now ≡ true
    → skeleton text (inform api id s now events retry_count)
      ≡ enclosed (
          codes "<cwmp:Inform><DeviceId><Manufacturer></Manufacturer><OUI></OUI>"
          ++ (codes "<ProductClass></ProductClass><SerialNumber></SerialNumber></DeviceId>"
              ++ (codes "<Event soap-enc:arrayType=\"\">"
                  ++ (copies (length events) event_markup
                      ++ (codes "</Event><MaxEnvelopes></MaxEnvelopes><CurrentTime></CurrentTime>"
                          ++ (codes
                                "<RetryCount></RetryCount><ParameterList soap-enc:arrayType=\"\">"
                              ++ (copies (length (inform_parameters api s)) value_markup
                                  ++ codes "</ParameterList></cwmp:Inform>")))))))
unfolding inform skeleton codes
skeleton-inform api id s now events retry_count plain =
    let silent_now = λ (rest : Bytes). skeleton-plain now rest text_data plain in
    simp (silent, skeleton-event_structs, skeleton-value_structs, silent_now)
