-- ===== src/Tests/Env.antt =====
-- pkg/env on a struct of two fields.
use flakes.Common.{
  ℕ, ◌≡◌, refl, true, List, [], ◌∷◌, none, some, Option, Bytes, codes, get, put, bytes_eq, index,
}
use flakes.Env.{
  new_decoder, decoder_from, Field, uint, string, uint_value, string_value, unmarshal_fields,
}
use flakes.Env.Fields.{Fills, unmarshal_fields-Fills}

abbrev no_text : Bytes → Option Bytes
no_text s = none

abbrev no_float : ℕ → Bytes → Option ℕ
no_float bits s = none

abbrev environ : List Bytes
environ = codes "MTU=1400" ∷ codes "VPN=a=b" ∷ codes "none" ∷ codes "MTU=1500" ∷ []

last_one : get (codes "MTU") (new_decoder environ) ≡ some (codes "1500")
unfolding get put bytes_eq index new_decoder decoder_from
last_one = refl

abbrev fields : List Field
fields =
    record {
      name = codes "Mtu";
      can_set = true;
      tag = codes "MTU,required";
      kind = uint 16;
      value = uint_value 0;
    }
    ∷ record {
      name = codes "Vpn";
      can_set = true;
      tag = codes "VPN";
      kind = string;
      value = string_value [];
    }
    ∷ []

unmarshal_fields-Fills_example :
    let result = unmarshal_fields no_text no_float (new_decoder environ) fields in
    Fills no_text no_float (new_decoder environ) fields result.0 result.1
unmarshal_fields-Fills_example =
    unmarshal_fields-Fills no_text no_float (new_decoder environ) fields
