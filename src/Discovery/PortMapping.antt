-- ===== src/Discovery/PortMapping.antt =====
-- discovery/PortMapping.h and PortMapping.cpp: the UDP ports of a domain and its participants.
-- The configuration, the domain and the participant are uint32_t.
pub mod Ports
use mini_dds.Prelude.{
  ℕ, ◌+◌, ◌-◌, ◌*◌, ◌%◌, ◌^◌, Bool, true, false, ltb, if◌then◌else◌, Option, none, some,
}

pub record PortMappingConfig : Type 0 where
  pub port_base : ℕ
  pub domain_gain : ℕ
  pub participant_gain : ℕ
  pub spdp_multicast_offset : ℕ
  pub spdp_unicast_offset : ℕ
  pub user_multicast_offset : ℕ
  pub user_unicast_offset : ℕ

-- PortMappingConfig{}
abbrev pub port_mapping_config_default : PortMappingConfig
port_mapping_config_default = record {
  port_base = 7400;
  domain_gain = 250;
  participant_gain = 2;
  spdp_multicast_offset = 0;
  spdp_unicast_offset = 10;
  user_multicast_offset = 1;
  user_unicast_offset = 11;
}

-- The sums and products are those of uint64_t.
abbrev pub port_value : PortMappingConfig → (domain_id offset participant_id : ℕ) → Bool → ℕ
port_value config domain_id offset participant_id include_participant =
    (config.port_base
      + config.domain_gain * domain_id % 2 ^ 64
      + offset
      + (if include_participant then config.participant_gain * participant_id % 2 ^ 64 else 0))
    % 2 ^ 64

unfoldable pub calculate :
    PortMappingConfig → (domain_id offset participant_id : ℕ) → Bool → Option ℕ
calculate config domain_id offset participant_id include_participant =
    let value = port_value config domain_id offset participant_id include_participant in
    if ltb (2 ^ 16 - 1) value then none else some (value % 2 ^ 16)

unfoldable pub spdp_multicast_port : PortMappingConfig → ℕ → Option ℕ
spdp_multicast_port config domain_id =
    calculate config domain_id config.spdp_multicast_offset 0 false

unfoldable pub spdp_unicast_port : PortMappingConfig → (domain_id participant_id : ℕ) → Option ℕ
spdp_unicast_port config domain_id participant_id =
    calculate config domain_id config.spdp_unicast_offset participant_id true

unfoldable pub user_multicast_port : PortMappingConfig → ℕ → Option ℕ
user_multicast_port config domain_id =
    calculate config domain_id config.user_multicast_offset 0 false

unfoldable pub user_unicast_port : PortMappingConfig → (domain_id participant_id : ℕ) → Option ℕ
user_unicast_port config domain_id participant_id =
    calculate config domain_id config.user_unicast_offset participant_id true
