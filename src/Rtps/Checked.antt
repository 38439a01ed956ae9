-- ===== src/Rtps/Checked.antt =====
-- Reads that report an error of their own: the `error` string that `read_sequence_number_set` and
-- the decoders of rtps/Reliability.cpp fill in.
use mini_dds.Prelude.{
  ◌≡◌, List, ◌++◌, append_assoc, Bool, true, false, Option, none, some, Result, ok, err, ℕ, [],
}
use mini_dds.Cdr.Writer.{Endianness}
use mini_dds.Cdr.Reader.{CdrReader, Read}
use mini_dds.Cdr.RoundTrip.{Ready, Parses}
use mini_dds.Rtps.Codec.{Error}

abbrev pub Checked : Type 0 → Type 0
Checked A = CdrReader → Result Error A × CdrReader

abbrev continue :
    {A B : Type 0} → Result Error A × CdrReader → (A → Checked B) → Result Error B × CdrReader
continue (err e, r) f = (err e, r)
continue (ok a, r) f = f a r

infixl 5 ◌>>=◌ ◌>>◌
abbrev pub ◌>>=◌ : {A B : Type 0} → Checked A → (A → Checked B) → Checked B
◌>>=◌ m f r = continue (m r) f

abbrev pub ◌>>◌ : {A B : Type 0} → Checked A → Checked B → Checked B
m >> k = m >>= λ _. k

abbrev pub return : {A : Type 0} → A → Checked A
return a r = (ok a, r)

abbrev pub reject_if : Bool → Error → Checked (Unit {0})
reject_if true e r = (err e, r)
reject_if false e r = (ok tt, r)

abbrev or_error : {A : Type 0} → Error → Option A × CdrReader → Result Error A × CdrReader
or_error e (none, r) = (err e, r)
or_error e (some a, r) = (ok a, r)

-- A read whose failure is reported as `e`.
abbrev pub or_else : {A : Type 0} → Error → Read A → Checked A
or_else e m r = or_error e (m r)

-- The checked read `m` takes `xs` from the front, whatever follows, and returns `a`.
abbrev pub Accepts : {A : Type 0} → Endianness → ℕ → ℕ → Checked A → List ℕ → A → Type 0
Accepts e k l m xs a =
    (r : CdrReader) (rest : List ℕ)
    → Ready e k (xs ++ rest) r
    → (r' : CdrReader) × (m r ≡ (ok a, r')) × Ready e l rest r'

pub or_else-Accepts :
    {A : Type 0} (e : Endianness) (k l : ℕ) (x : Error) (m : Read A) (xs : List ℕ) (a : A)
    → Parses e k l m xs a
    → Accepts e k l (or_else x m) xs a
or_else-Accepts e k l x m xs a p r rest h = let (r', q, h') = p r rest h in (r', rw q, h')

pub return-Accepts :
    {A : Type 0} (e : Endianness) (k : ℕ) (a b : A) → a ≡ b → Accepts e k k (return a) [] b
return-Accepts e k a b p r rest h = (r, rw p, h)

pub bind-Accepts :
    {A B : Type 0} (e : Endianness) (k l n : ℕ) (m : Checked A) (f : A → Checked B) (xs ys : List ℕ)
    (a : A) (b : B)
    → Accepts e k l m xs a
    → Accepts e l n (f a) ys b
    → Accepts e k n (m >>= f) (xs ++ ys) b
bind-Accepts e k l n m f xs ys a b first second r rest h =
    let (r', p, h') = first r (ys ++ rest) (rw append_assoc at h) in
    let (r'', q, h'') = second r' rest h' in (r'', rw p q, h'')

-- A check that passes takes nothing.
pub reject_if-Accepts :
    {B : Type 0} (e : Endianness) (k l : ℕ) (test : Bool) (x : Error) (f : Unit {0} → Checked B)
    (xs : List ℕ) (b : B)
    → test ≡ false
    → Accepts e k l (f tt) xs b
    → Accepts e k l (reject_if test x >>= f) xs b
reject_if-Accepts e k l test x f xs b p next r rest h =
    let (r', q, h') = next r rest h in (r', rw p q, h')

pub last-Accepts :
    {A B : Type 0} (e : Endianness) (k l : ℕ) (m : Checked A) (make : A → B) (xs : List ℕ) (a : A)
    (b : B)
    → make a ≡ b
    → Accepts e k l m xs a
    → Accepts e k l (m >>= λ x. return (make x)) xs b
last-Accepts e k l m make xs a b p field r rest h =
    let (r', q, h') = field r rest h in (r', rw q (rw p), h')

-- A field behind which only checks follow.
pub closing-Accepts :
    {A B : Type 0} (e : Endianness) (k l n : ℕ) (m : Checked A) (f : A → Checked B) (xs : List ℕ)
    (a : A) (b : B)
    → Accepts e k l m xs a
    → Accepts e l n (f a) [] b
    → Accepts e k n (m >>= f) xs b
closing-Accepts e k l n m f xs a b first second r rest h =
    let (r', p, h') = first r rest h in let (r'', q, h'') = second r' rest h' in (r'', rw p q, h'')
