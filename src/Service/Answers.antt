-- ===== src/Service/Answers.antt =====
-- What stands behind the answer of a read or a write through the service.
use stiebel_eltron_heatpump.Prelude.{
  ◌≡◌, refl, Option, none, some, true, inl, inr, Bool-cases, Option-cases,
}
use stiebel_eltron_heatpump.Errors.{ok}
use stiebel_eltron_heatpump.Exec.{next-ok}
use stiebel_eltron_heatpump.Dict.{Dict, lookup}
use stiebel_eltron_heatpump.Models.{Conversions, Text, FloatOps, Value, ChannelDefinition, writable}
use stiebel_eltron_heatpump.Config.{Request, HeatPumpConfig, channel, request_for_channel}
use stiebel_eltron_heatpump.Protocol.Transport.{Transport}
use stiebel_eltron_heatpump.Communication.{write_data}
use stiebel_eltron_heatpump.Communication.Reading.{IsDecoded, read_request_sound}
use stiebel_eltron_heatpump.Service.{
  Requested, ChannelValue, coerce, to_channel_value, require_channel, found, value_or,
}
use stiebel_eltron_heatpump.Service.Operations.{
  read_found, read_channel, write_writable, write_channel,
}

module _ (t : Transport) {F : Type 0} (ops : FloatOps F) (config : HeatPumpConfig F) where
  require_channel-ok :
      (channel_id : Text) (r : ChannelDefinition F)
      → require_channel config channel_id ≡ ok r
      → channel config channel_id ≡ some r
  unfolding require_channel
  require_channel-ok channel_id r h = elim (Option-cases (channel config channel_id)) [
    | inl e ↦ cc
    | inr e ↦ cc
  ]

  found-ok : (o : Option (Value F)) (value : Value F) → found o ≡ ok value → o ≡ some value
  unfolding found
  found-ok none value h = cc
  found-ok (some v) value h = cc

  -- What a value that `read_channel` returns rests on.
  pub record IsRead (channel_id : Text) (answer : ChannelValue F) : Type 0 where
    pub definition : ChannelDefinition F
    pub request : Request F
    pub values : Dict (Value F)
    pub value : Value F
    pub configured : channel config channel_id ≡ some definition
    pub requested : request_for_channel config channel_id ≡ some request
    pub decoded : IsDecoded t ops request values
    pub present : lookup channel_id values ≡ some value
    pub answered : answer ≡ to_channel_value definition value

  read_found-ok :
      (o : Option (Request F)) (values : Dict (Value F)) (s s' : t.State)
      → read_found t ops config o s ≡ (ok values, s')
      → (request : Request F) × (o ≡ some request) × IsDecoded t ops request values
  unfolding read_found
  read_found-ok none values s s' h = cc
  read_found-ok (some request) values s s' h =
      (request, refl, read_request_sound t ops request s s' values h)

  -- An answer of `read_channel` is for a configured channel, and its value was decoded, for the
  -- channel's request, from responses of the device that passed the header check.
  pub read_channel-ok :
      (channel_id : Text) (answer : ChannelValue F) (s s' : t.State)
      → read_channel t ops config channel_id s ≡ (ok answer, s')
      → IsRead channel_id answer
  unfolding read_channel
  read_channel-ok channel_id answer s s' h =
      let (r, s1, e, h1) = next-ok _ (require_channel config channel_id, s) h in
      let (values, s2, f, h2) =
        next-ok _ (read_found t ops config (request_for_channel config channel_id) s1) h1 in
      let (value, s3, g, h3) = next-ok _ (found (lookup channel_id values), s2) h2 in
      let (request, q, d) = read_found-ok (request_for_channel config channel_id) values s1 s2 f in
      record {
        definition = r;
        request = request;
        values = values;
        value = value;
        configured = require_channel-ok channel_id r (cc);
        requested = q;
        decoded = d;
        present = found-ok (lookup channel_id values) value (cc);
        answered = cc;
      }

  module _ (conv : Conversions F) where
    -- What a value that `write_channel` returns rests on.
    pub record IsWritten (channel_id : Text) (value : Requested F) (s s' : t.State)
        (answer : ChannelValue F) : Type 0 where
      pub definition : ChannelDefinition F
      pub coerced : Value F
      pub values : Dict (Value F)
      pub configured : channel config channel_id ≡ some definition
      pub allowed : writable definition ≡ true
      pub converted : coerce ops conv definition value ≡ ok coerced
      pub written : write_data t ops coerced definition s ≡ (ok values, s')
      pub answered :
          answer ≡ to_channel_value definition (value_or (lookup channel_id values) coerced)

    write_writable-ok :
        (channel_id : Text) (value : Requested F) (answer : ChannelValue F) (s s' : t.State)
        (r : ChannelDefinition F)
        → channel config channel_id ≡ some r
        → writable r ≡ true
        → write_writable t ops config conv r channel_id value s ≡ (ok answer, s')
        → IsWritten channel_id value s s' answer
    unfolding write_writable
    write_writable-ok channel_id value answer s s' r configured allowed h =
        let (coerced, s2, f, h2) = next-ok _ (coerce ops conv r value, s) h in
        let (values, s3, g, h3) = next-ok _ (write_data t ops coerced r s2) h2 in
        record {
          definition = r;
          coerced = coerced;
          values = values;
          configured = configured;
          allowed = allowed;
          converted = cc;
          written = cc;
          answered = cc;
        }

    -- An answer of `write_channel` is for a configured channel that may be written, after a
    -- `write_data` of the converted value that raised nothing; it tells the value that this returned,
    -- or the converted value if it returned none for the channel.
    pub write_channel-ok :
        (channel_id : Text) (value : Requested F) (answer : ChannelValue F) (s s' : t.State)
        → write_channel t ops config conv channel_id value s ≡ (ok answer, s')
        → IsWritten channel_id value s s' answer
    unfolding write_channel
    write_channel-ok channel_id value answer s s' h =
        let (r, s1, e, h1) = next-ok _ (require_channel config channel_id, s) h in
        elim (Bool-cases (writable r)) [
          | inl w ↦
              write_writable-ok channel_id value answer s s' r
                (require_channel-ok channel_id r (cc)) w (cc)
          | inr w ↦ cc
        ]
