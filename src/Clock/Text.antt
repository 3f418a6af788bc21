-- ===== src/Clock/Text.antt =====
-- The text of a time in a document.
use cpe_acs_connector_tr.Base.{
  ℕ, ◌+◌, true, refl, stream, [], ◌∷◌, ◌++◌, List, ◌≡◌, arith, Bytes, codes, all, length,
}
use cpe_acs_connector_tr.DataModel.{inform_parameters}
use cpe_acs_connector_tr.SoapBuilder.{inform}
use cpe_acs_connector_tr.SoapBuilder.Markup.{
  text, skeleton, is_plain, all-is_plain-append, to_string-is_plain,
}
use cpe_acs_connector_tr.SoapBuilder.Skeleton.{
  enclosed, copies, event_markup, value_markup, skeleton-inform,
}
use cpe_acs_connector_tr.Transformer.{TransformerApi}
use cpe_acs_connector_tr.Clock.{Tm, two_digits, time_pieces, iso_time}

two_digits-is_plain : (n : ℕ) → all is_plain (two_digits n) ≡ true
two_digits-is_plain n = ground arith

stream-is_plain :
    (pieces : List Bytes) → all (all is_plain) pieces ≡ true → all is_plain (stream pieces) ≡ true
stream-is_plain [] h = refl
stream-is_plain (s ∷ pieces) h =
    all-is_plain-append s (stream pieces) (ground arith) (stream-is_plain pieces (ground arith))

iso_time-is_plain : (tm : Tm) → all is_plain (iso_time tm) ≡ true
unfolding iso_time codes
iso_time-is_plain tm = stream-is_plain (time_pieces tm) (
    ground (
      arith,
      to_string-is_plain (tm.year + 1900),
      two_digits-is_plain (tm.mon + 1),
      two_digits-is_plain tm.mday,
      two_digits-is_plain tm.hour,
      two_digits-is_plain tm.min,
      two_digits-is_plain tm.sec,
    ))

-- The markup of an Inform is fixed by the number of its events and of the data model's parameters,
-- at any time of the clock: one EventStruct for each event and one ParameterValueStruct for each
-- parameter. No value, no event and no time adds to it.
pub skeleton-inform_at :
    {S : Type 0} (api : TransformerApi S) (id : Bytes) (s : S) (tm : Tm) (events : List Bytes)
    (retry_count : ℕ)
    → skeleton text (inform api id s (iso_time tm) events retry_count)
      ≡ enclosed (
          codes "<cwmp:Inform><DeviceId><Manufacturer></Manufacturer><OUI></OUI>"
          ++ (codes "<ProductClass></ProductClass><SerialNumber></SerialNumber></DeviceId>"
              ++ (codes "<Event soap-enc:arrayType=\"\">"
                  ++ (copies (length events) event_markup
                      ++ (codes "</Event><MaxEnvelopes></MaxEnvelopes><CurrentTime></CurrentTime>"
                          ++ (codes
                                "<RetryCount></RetryCount><ParameterList soap-enc:arrayType=\"\">"
                              ++ (copies (length (inform_parameters api s)) value_markup
                                  ++ codes "</ParameterList></cwmp:Inform>")))))))
skeleton-inform_at api id s tm events retry_count =
    skeleton-inform api id s (iso_time tm) events retry_count (iso_time-is_plain tm)
