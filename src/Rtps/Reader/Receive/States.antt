-- ===== src/Rtps/Reader/Receive/States.antt =====
-- The states of the writers of a ReliableReader: `writer_state` of rtps/ReliableEndpoint.cpp.
use mini_dds.Prelude.{
  ◌≡◌, refl, sym, List, [], ◌∷◌, false, All, Bool-cases, inl, inr, if◌then◌else◌, if_holds,
}
use mathlib.Core.Path.{subst}
use mini_dds.Transport.{Endpoint}
use mini_dds.Rtps.Types.{Guid, guid_eq, guid_eq_iff}
use mini_dds.Rtps.Reader.State.{WriterState}
use mini_dds.Rtps.Reader.State.Invariant.{IsWriterState, new_writer_state-IsWriterState}
use mini_dds.Rtps.Reader.Receive.{writer_state, store}

readdress-IsWriterState :
    (endpoint : Endpoint) (s : WriterState)
    → IsWriterState s
    → IsWriterState (record s { reply_endpoint = endpoint })
readdress-IsWriterState endpoint s v = record {
  highest_bounded = v.highest_bounded;
  announced_bounded = v.announced_bounded;
  fresh = v.fresh;
  labelled = v.labelled;
  held = v.held;
}

pub writer_state-IsWriterState :
    (guid : Guid) (endpoint : Endpoint) (ss : List WriterState)
    → All IsWriterState ss
    → IsWriterState (writer_state guid endpoint ss)
unfolding writer_state
writer_state-IsWriterState guid endpoint [] a = new_writer_state-IsWriterState guid endpoint
writer_state-IsWriterState guid endpoint (s ∷ ss) a =
    if_holds IsWriterState (guid_eq s.writer_guid guid)
      (λ h. readdress-IsWriterState endpoint s a.0)
      (λ h. writer_state-IsWriterState guid endpoint ss a.1)

pub writer_guid-writer_state :
    (guid : Guid) (endpoint : Endpoint) (ss : List WriterState)
    → (writer_state guid endpoint ss).writer_guid ≡ guid
unfolding writer_state
writer_guid-writer_state guid endpoint [] = refl
writer_guid-writer_state guid endpoint (s ∷ ss) =
    if_holds (λ (t : WriterState). t.writer_guid ≡ guid) (guid_eq s.writer_guid guid)
      (λ h. (guid_eq_iff s.writer_guid guid).0 h) (λ h. writer_guid-writer_state guid endpoint ss)

pub store-All :
    (P : WriterState → Type 0) (s : WriterState) (ss : List WriterState)
    → P s
    → All P ss
    → All P (store s ss)
unfolding store
store-All P s [] p a = (p, tt)
store-All P s (t ∷ ts) p a =
    if_holds (All P) (guid_eq t.writer_guid s.writer_guid) (λ h. (p, a.1))
      (λ h. (a.0, store-All P s ts p a.1))

-- What is stored is found under its own writer, and nothing else is changed.
pub writer_state-store :
    (guid : Guid) (endpoint : Endpoint) (s : WriterState) (ss : List WriterState)
    → writer_state guid endpoint (store s ss) ≡ (
        if guid_eq s.writer_guid guid
        then record s { reply_endpoint = endpoint }
        else writer_state guid endpoint ss)
unfolding writer_state store
writer_state-store guid endpoint s [] = refl
writer_state-store guid endpoint s (t ∷ ts) =
    let rest = writer_state-store guid endpoint s ts in
    elim (Bool-cases (guid_eq t.writer_guid s.writer_guid)) [
      | inl same ↦
          let e = (guid_eq_iff t.writer_guid s.writer_guid).0 same in
          elim (Bool-cases (guid_eq s.writer_guid guid)) [
            | inl hit ↦ rw (same, hit) refl
            | inr miss ↦
                let miss' = subst (λ (g : Guid). guid_eq g guid ≡ false) (sym e) miss in
                rw (same, miss, miss') refl
          ]
      | inr other ↦ elim (Bool-cases (guid_eq s.writer_guid guid)) [
        | inl hit ↦
            let e = (guid_eq_iff s.writer_guid guid).0 hit in
            let miss = subst (λ (g : Guid). guid_eq t.writer_guid g ≡ false) e other in
            rw (other, miss, rest, hit) refl
        | inr miss ↦ rw (other, rest, miss) refl
      ]
    ]
