-- ===== src/Discovery/PortMapping/Ports.antt =====
-- The sum of `calculate` as one of numbers without a bound, and which ports differ in the default
-- configuration.
use mini_dds.Prelude.{
  ℕ, ◌+◌, ◌-◌, ◌*◌, ◌^◌, ◌<◌, ◌≡◌, refl, arith, Bool, true, false, ltb, if◌then◌else◌, Option, none,
  some,
}
use mini_dds.Discovery.PortMapping.{
  PortMappingConfig, port_mapping_config_default, calculate, spdp_unicast_port, user_unicast_port,
}

abbrev pub exact_port : PortMappingConfig → (domain_id offset participant_id : ℕ) → Bool → ℕ
exact_port config domain_id offset participant_id true =
    config.port_base
    + config.domain_gain * domain_id
    + offset
    + config.participant_gain * participant_id
exact_port config domain_id offset participant_id false =
    config.port_base + config.domain_gain * domain_id + offset

-- Where the sum over all natural numbers stays below 2 ^ 64, a port is given exactly if that sum is
-- one of uint16_t, and it is that sum.
pub calculate_lem :
    (config : PortMappingConfig) (domain_id offset participant_id : ℕ) (b : Bool)
    → exact_port config domain_id offset participant_id b < 2 ^ 64
    → calculate config domain_id offset participant_id b ≡ (
        if ltb (2 ^ 16 - 1) (exact_port config domain_id offset participant_id b)
        then none
        else some (exact_port config domain_id offset participant_id b))
unfolding calculate
calculate_lem config d o p true h = ground arith
calculate_lem config d o p false h = ground arith

abbrev pub unicast_port : Bool → (domain_id participant_id : ℕ) → Option ℕ
unicast_port user domain_id participant_id =
    if user
    then user_unicast_port port_mapping_config_default domain_id participant_id
    else spdp_unicast_port port_mapping_config_default domain_id participant_id

-- What the default configuration gives, for 32-bit identifiers.
unicast_port-eq-some :
    (user : Bool) (d p n : ℕ)
    → d < 2 ^ 32
    → p < 2 ^ 32
    → unicast_port user d p ≡ some n
    → n ≡ 7410 + (if user then 1 else 0) + 250 * d + 2 * p
unfolding spdp_unicast_port user_unicast_port
unicast_port-eq-some true d p n hd hp e =
    ground (arith, calculate_lem port_mapping_config_default d 11 p true (omega (arith, hd, hp)), e)
unicast_port-eq-some false d p n hd hp e =
    ground (arith, calculate_lem port_mapping_config_default d 10 p true (omega (arith, hd, hp)), e)

-- With the default configuration, 32-bit domains and at most 120 participants in a domain, a
-- unicast port that is given belongs to one purpose, one domain and one participant.
pub unicast_port_unique :
    (user user' : Bool) (d d' p p' n : ℕ)
    → d < 2 ^ 32
    → d' < 2 ^ 32
    → p < 120
    → p' < 120
    → unicast_port user d p ≡ some n
    → unicast_port user' d' p' ≡ some n
    → (user ≡ user') × (d ≡ d') × (p ≡ p')
unicast_port_unique user user' d d' p p' n hd hd' hp hp' e e' =
    same user user' (unicast_port-eq-some user d p n hd (omega (arith, hp)) e)
      (unicast_port-eq-some user' d' p' n hd' (omega (arith, hp')) e')
  where
    same :
        (u u' : Bool)
        → n ≡ 7410 + (if u then 1 else 0) + 250 * d + 2 * p
        → n ≡ 7410 + (if u' then 1 else 0) + 250 * d' + 2 * p'
        → (u ≡ u') × (d ≡ d') × (p ≡ p')
    same true true f g = (refl, omega arith, omega arith)
    same true false f g = absurd (omega arith)
    same false true f g = absurd (omega arith)
    same false false f g = (refl, omega arith, omega arith)
