-- ===== src/Rtps/Stateless/Readers.antt =====
-- `unique_readers` of rtps/StatelessEndpoint.cpp.
use mini_dds.Prelude.{◌≡◌, ◌↔◌, refl, arith, List, [], ◌∷◌, ◌++◌, true, false, ◌||◌, if_holds}
use mini_dds.Transport.{endpoint_eq_iff}
use mini_dds.Rtps.Types.{entity_id_eq_iff}
use mini_dds.Rtps.Stateless.{ReaderProxy, reader_proxy_eq, has_reader, push_unique, unique_readers}

reader_proxy_eq_iff : (a b : ReaderProxy) → (reader_proxy_eq a b ≡ true) ↔ (a ≡ b)
unfolding reader_proxy_eq
reader_proxy_eq_iff a b =
    ground (arith, endpoint_eq_iff a.endpoint b.endpoint, entity_id_eq_iff a.reader_id b.reader_id)

-- No reader stands in the list twice.
abbrev pub IsUnique : List ReaderProxy → Type 0
IsUnique [] = Unit {0}
IsUnique (r ∷ rs) = (has_reader r rs ≡ false) × IsUnique rs

has_reader-append_one :
    (r x : ReaderProxy) (rs : List ReaderProxy)
    → has_reader r (rs ++ x ∷ []) ≡ (has_reader r rs || reader_proxy_eq x r)
has_reader-append_one r x [] = ground arith
has_reader-append_one r x (y ∷ rs) = ground (arith, has_reader-append_one r x rs)

different : (a b : ReaderProxy) → reader_proxy_eq a b ≡ false → reader_proxy_eq b a ≡ false
different a b h = ground (arith, reader_proxy_eq_iff a b, reader_proxy_eq_iff b a)

IsUnique-append_one :
    (x : ReaderProxy) (rs : List ReaderProxy)
    → has_reader x rs ≡ false
    → IsUnique rs
    → IsUnique (rs ++ x ∷ [])
IsUnique-append_one x [] h u = (refl, tt)
IsUnique-append_one x (r ∷ rs) h u = (
  ground (arith, has_reader-append_one r x rs, different r x (ground arith), u.0),
  IsUnique-append_one x rs (ground arith) u.1,
)

push_unique-IsUnique :
    (readers result : List ReaderProxy) → IsUnique result → IsUnique (push_unique readers result)
unfolding push_unique
push_unique-IsUnique [] result u = u
push_unique-IsUnique (r ∷ readers) result u = push_unique-IsUnique readers _ (
    if_holds IsUnique (has_reader r result) (λ held. u)
      (λ fresh. IsUnique-append_one r result fresh u))

same_reader :
    (r x : ReaderProxy) (rs : List ReaderProxy)
    → has_reader r rs ≡ true
    → reader_proxy_eq r x ≡ true
    → has_reader x rs ≡ true
same_reader r x rs h e = ground (arith, reader_proxy_eq_iff r x)

has_reader-push_unique :
    (x : ReaderProxy) (readers result : List ReaderProxy)
    → has_reader x (push_unique readers result) ≡ (has_reader x result || has_reader x readers)
unfolding push_unique
has_reader-push_unique x [] result = ground arith
has_reader-push_unique x (r ∷ readers) result = ground (
  arith,
  has_reader-push_unique x readers result,
  has_reader-push_unique x readers (result ++ r ∷ []),
  has_reader-append_one x r result,
  same_reader r x result,
)

-- `unique_readers` keeps every reader that it is given and no other, and each of them once.
pub unique_readers-IsUnique :
    (readers : List ReaderProxy)
    → IsUnique (unique_readers readers)
      × ((x : ReaderProxy) → has_reader x (unique_readers readers) ≡ has_reader x readers)
unfolding unique_readers
unique_readers-IsUnique readers =
    (push_unique-IsUnique readers [] tt, λ x. has_reader-push_unique x readers [])
