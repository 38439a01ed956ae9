-- ===== src/Tests/Identifiers.antt =====
-- The identifiers of a participant at concrete counts.
use mini_dds.Prelude.{◌≡◌, refl, arith, [], ◌∷◌}
use mini_dds.Rtps.Router.{writer}
use mini_dds.Dds.Allocation.{given, given_before, given_inj}

-- The third writer, before and after the first reader.
same_third : given writer 2 0 ≡ given writer 2 1
unfolding given mini_dds.Dds.Allocation.after mini_dds.Dds.allocate_reader_id
    mini_dds.Dds.allocate_writer_id
same_third = refl

third_bytes : (given writer 2 1).value ≡ 0 ∷ 0 ∷ 3 ∷ 3 ∷ []
unfolding given mini_dds.Dds.allocate_writer_id mini_dds.Dds.make_user_entity_id
    mini_dds.Dds.Allocation.after mini_dds.Dds.allocate_reader_id
third_bytes = refl

given_inj_example : (writer ≡ writer) × (given_before writer 2 0 ≡ given_before writer 2 1)
given_inj_example =
    given_inj writer writer 2 0 2 1 (omega arith, omega arith) (omega arith, omega arith) same_third
