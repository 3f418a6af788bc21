-- ===== src/Examples/Documents.antt =====
-- The documents at known inputs: what is written, what is read, and the answers between.
use cpe_acs_connector_tr.Base.{to_string, [], ◌∷◌, ◌++◌, ◌≡◌, refl, codes, equal}
use cpe_acs_connector_tr.DataModel.{inform_parameters}
use cpe_acs_connector_tr.SoapBuilder.{inform}
use cpe_acs_connector_tr.SoapBuilder.Markup.{text, skeleton}
use cpe_acs_connector_tr.SoapBuilder.Skeleton.{copies, enclosed, event_markup, value_markup}
use cpe_acs_connector_tr.SoapParser.{find_descendant, parse_rpc}
use cpe_acs_connector_tr.SoapParser.Search.{
  document_order, first_named, find_descendant-first_named,
}
use cpe_acs_connector_tr.SoapParser.Outcome.{Reads, parse_rpc-Reads}
use cpe_acs_connector_tr.Clock.{Tm, iso_time}
use cpe_acs_connector_tr.Clock.Text.{skeleton-inform_at}
use cpe_acs_connector_tr.Examples.{api, xml, document}

abbrev noon : Tm
noon = record { sec = 0; min = 0; hour = 12; mday = 29; mon = 1; year = 124 }

-- "%Y-%m-%dT%H:%M:%SZ" at a leap day.
text_at_noon : iso_time noon ≡ codes "2024-02-29T12:00:00Z"
unfolding iso_time to_string codes
text_at_noon = refl

skeleton-inform_at_example :
    skeleton text (inform api (codes "tr069d-1") 7 (iso_time noon) (codes "1 BOOT" ∷ []) 0)
    ≡ enclosed (
        codes "<cwmp:Inform><DeviceId><Manufacturer></Manufacturer><OUI></OUI>"
        ++ (codes "<ProductClass></ProductClass><SerialNumber></SerialNumber></DeviceId>"
            ++ (codes "<Event soap-enc:arrayType=\"\">"
                ++ (copies 1 event_markup
                    ++ (codes "</Event><MaxEnvelopes></MaxEnvelopes><CurrentTime></CurrentTime>"
                        ++ (codes "<RetryCount></RetryCount><ParameterList soap-enc:arrayType=\"\">"
                            ++ (copies 0 value_markup
                                ++ codes "</ParameterList></cwmp:Inform>")))))))
unfolding codes inform_parameters equal
skeleton-inform_at_example =
    skeleton-inform_at api (codes "tr069d-1") 7 noon (codes "1 BOOT" ∷ []) 0

find_descendant-first_named_example :
    find_descendant xml (document (codes "Reboot")) (codes "Body")
    ≡ first_named xml (codes "Body") (document_order (document (codes "Reboot")))
find_descendant-first_named_example =
    find_descendant-first_named xml (document (codes "Reboot")) (codes "Body")

parse_rpc-Reads_example : Reads xml (codes "reboot") (parse_rpc xml (codes "reboot"))
parse_rpc-Reads_example = parse_rpc-Reads xml (codes "reboot")
