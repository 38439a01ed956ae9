-- ===== src/Tests/Discoveries.antt =====
-- The parameter lists and the ports at concrete inputs.
use mini_dds.Prelude.{
  ℕ, ◌≡◌, refl, arith, List, [], ◌∷◌, true, false, ltb, if◌then◌else◌, none, some, ok, ◌-◌, ◌^◌,
}
use mini_dds.Cdr.Writer.{little}
use mini_dds.Discovery.ParameterList.{ParameterList, encode_parameter_list, decode_parameter_list}
use mini_dds.Discovery.ParameterList.RoundTrip.{readable, decode-encode_parameter_list}
use mini_dds.Discovery.PortMapping.{port_mapping_config_default, calculate}
use mini_dds.Discovery.PortMapping.Ports.{calculate_lem, unicast_port, unicast_port_unique}

abbrev two_parameters : ParameterList
two_parameters = record { id = 5; value = 1 ∷ 2 ∷ 3 ∷ [] } ∷ record { id = 0; value = 4 ∷ [] } ∷ []

abbrev two_bytes : List ℕ
two_bytes =
    0 ∷ 3 ∷ 0 ∷ 0 ∷ 5 ∷ 0 ∷ 4 ∷ 0 ∷ 1 ∷ 2 ∷ 3 ∷ 0 ∷ 0 ∷ 0 ∷ 4 ∷ 0 ∷ 4 ∷ 0 ∷ 0 ∷ 0 ∷ 1 ∷ 0 ∷ 0 ∷ 0
    ∷ []

two_encoded : encode_parameter_list two_parameters little ≡ ok two_bytes
unfolding encode_parameter_list mini_dds.Discovery.ParameterList.encode_parameters
    mini_dds.Discovery.ParameterList.uint16_bytes
two_encoded = refl

decode-encode_parameter_list_example :
    decode_parameter_list two_bytes ≡ ok (readable two_parameters, little)
decode-encode_parameter_list_example =
    decode-encode_parameter_list two_parameters little two_bytes (omega arith, (omega arith, tt))
      two_encoded

-- The value is filled up to four bytes, and the padding is gone.
readable_two : readable two_parameters ≡ record { id = 5; value = 1 ∷ 2 ∷ 3 ∷ 0 ∷ [] } ∷ []
unfolding readable
readable_two = refl

calculate_lem_example :
    calculate port_mapping_config_default 232 10 5 true
    ≡ (if ltb (2 ^ 16 - 1) 65420 then none else some 65420)
calculate_lem_example = calculate_lem port_mapping_config_default 232 10 5 true (omega arith)

first_port : unicast_port false 0 1 ≡ some 7412
unfolding mini_dds.Discovery.PortMapping.spdp_unicast_port calculate
first_port = refl

unicast_port_unique_example : (false ≡ false) × (◌≡◌ {A = ℕ} 0 0) × (◌≡◌ {A = ℕ} 1 1)
unicast_port_unique_example =
    unicast_port_unique false false 0 0 1 1 7412 (omega arith) (omega arith) (omega arith)
      (omega arith) first_port first_port
