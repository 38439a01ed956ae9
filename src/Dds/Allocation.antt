-- ===== src/Dds/Allocation.antt =====
-- The identifiers of dds/DomainParticipant.cpp, one allocation after another.
use mini_dds.Prelude.{
  ℕ, zero, suc, ◌+◌, ◌-◌, ◌/◌, ◌^◌, ◌<◌, ◌≡◌, refl, sym, ap, ◌∙◌, arith, false, ◌==◌,
}
use mini_dds.Prelude.Bits.Single.{bit_and_low}
use mini_dds.Cdr.Writer.{u8}
use mini_dds.Rtps.Router.{RoutedEndpointKind, reader, writer}
use mini_dds.Rtps.Types.{EntityId}
use mini_dds.Dds.{
  ParticipantState, new_participant_state, user_key, make_user_entity_id, allocate_writer_id,
  allocate_reader_id, writer_kind, reader_kind,
}

-- A participant after a number of allocations of each kind.
unfoldable pub after : (writers readers : ℕ) → ParticipantState
after zero zero = new_participant_state
after zero (suc readers) = (allocate_reader_id (after zero readers)).1
after (suc writers) readers = (allocate_writer_id (after writers readers)).1

after-keys :
    (writers readers : ℕ)
    → writers < 2 ^ 24
    → readers < 2 ^ 24
    → ((after writers readers).next_writer_key ≡ writers + 1)
      × ((after writers readers).next_reader_key ≡ readers + 1)
unfolding after allocate_writer_id allocate_reader_id
after-keys zero zero h k = (refl, refl)
after-keys zero (suc readers) h k =
    let before = after-keys zero readers h (omega arith) in
    let r = before.1 in (before.0, omega arith)
after-keys (suc writers) readers h k =
    let before = after-keys writers readers (omega arith) k in
    let w = before.0 in (omega arith, before.1)

user_key_lem : (key : ℕ) → 0 < key → key < 2 ^ 24 → user_key key ≡ key
user_key_lem key h k =
    let low = bit_and_low 24 key k in
    let positive : (key == 0) ≡ false = ground arith in rw (low, positive) refl

-- An identifier tells its key and its kind.
make_user_entity_id_inj :
    (a b kind kind' : ℕ)
    → 0 < a
    → a < 2 ^ 24
    → 0 < b
    → b < 2 ^ 24
    → make_user_entity_id a kind ≡ make_user_entity_id b kind'
    → (a ≡ b) × (kind ≡ kind')
unfolding make_user_entity_id
make_user_entity_id_inj a b kind kind' ha ha' hb hb' e =
    let ka = user_key_lem a ha ha' in
    let kb = user_key_lem b hb hb' in
    let bytes = ap (λ (id : EntityId). id.value) e in
    let high : u8 (user_key a / 2 ^ 16) ≡ u8 (user_key b / 2 ^ 16) = cc bytes in
    let middle : u8 (user_key a / 2 ^ 8) ≡ u8 (user_key b / 2 ^ 8) = cc bytes in
    let low : u8 (user_key a) ≡ u8 (user_key b) = cc bytes in
    (
      of_bytes a b ha' hb' (swap (λ k. u8 (k / 2 ^ 16)) ka kb high)
          (swap (λ k. u8 (k / 2 ^ 8)) ka kb middle) (swap u8 ka kb low),
      cc bytes,
    )
  where
    swap : {x y x' y' : ℕ} (f : ℕ → ℕ) → x ≡ x' → y ≡ y' → f x ≡ f y → f x' ≡ f y'
    swap f p q e = ap f (sym p) ∙ e ∙ ap f q

    of_bytes :
        (a b : ℕ)
        → a < 2 ^ 24
        → b < 2 ^ 24
        → u8 (a / 2 ^ 16) ≡ u8 (b / 2 ^ 16)
        → u8 (a / 2 ^ 8) ≡ u8 (b / 2 ^ 8)
        → u8 a ≡ u8 b
        → a ≡ b
    of_bytes a b h k high middle low = omega arith

-- Keys that follow one another from 1 on.
numbered :
    (kind kind' m n a b : ℕ)
    → m < 2 ^ 24 - 1
    → n < 2 ^ 24 - 1
    → a ≡ m + 1
    → b ≡ n + 1
    → make_user_entity_id a kind ≡ make_user_entity_id b kind'
    → (m ≡ n) × (kind ≡ kind')
numbered kind kind' m n a b h k p q e =
    let same =
      make_user_entity_id_inj a b kind kind' (omega arith) (omega arith) (omega arith) (omega arith)
        e in
    let keys = same.0 in (omega arith, same.1)

-- The identifier that is given next, and how many of its kind have been given.
unfoldable pub given : RoutedEndpointKind → (writers readers : ℕ) → EntityId
given writer writers readers = (allocate_writer_id (after writers readers)).0
given reader writers readers = (allocate_reader_id (after writers readers)).0

unfoldable pub given_before : RoutedEndpointKind → (writers readers : ℕ) → ℕ
given_before writer writers readers = writers
given_before reader writers readers = readers

-- Two identifiers that a participant gives out before it has given 2 ^ 24 - 1 of a kind are equal
-- only if they are of one kind, writers or readers, and as many of that kind were given before the
-- one as before the other.
pub given_inj :
    (kind kind' : RoutedEndpointKind) (writers readers writers' readers' : ℕ)
    → (writers < 2 ^ 24 - 1) × (readers < 2 ^ 24 - 1)
    → (writers' < 2 ^ 24 - 1) × (readers' < 2 ^ 24 - 1)
    → given kind writers readers ≡ given kind' writers' readers'
    → (kind ≡ kind') × (given_before kind writers readers ≡ given_before kind' writers' readers')
unfolding given given_before allocate_writer_id allocate_reader_id
given_inj writer writer writers readers writers' readers' h h' e = (
  refl,
  (numbered writer_kind writer_kind writers writers' _ _ h.0 h'.0
      (after-keys writers readers (omega arith) (omega arith)).0
      (after-keys writers' readers' (omega arith) (omega arith)).0 e).0,
)
given_inj writer reader writers readers writers' readers' h h' e = absurd (
    let kinds =
      (numbered writer_kind reader_kind writers readers' _ _ h.0 h'.1
        (after-keys writers readers (omega arith) (omega arith)).0
        (after-keys writers' readers' (omega arith) (omega arith)).1 e).1 in
    omega arith)
given_inj reader writer writers readers writers' readers' h h' e = absurd (
    let kinds =
      (numbered reader_kind writer_kind readers writers' _ _ h.1 h'.0
        (after-keys writers readers (omega arith) (omega arith)).1
        (after-keys writers' readers' (omega arith) (omega arith)).0 e).1 in
    omega arith)
given_inj reader reader writers readers writers' readers' h h' e = (
  refl,
  (numbered reader_kind reader_kind readers readers' _ _ h.1 h'.1
      (after-keys writers readers (omega arith) (omega arith)).1
      (after-keys writers' readers' (omega arith) (omega arith)).1 e).0,
)
