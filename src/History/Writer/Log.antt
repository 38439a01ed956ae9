-- ===== src/History/Writer/Log.antt =====
-- A writer's history against the log of all payloads that were ever added to it.

use mini_dds.Prelude.{
  ℕ, zero, suc, ◌+◌, ◌-◌, ◌^◌, ◌≤◌, ◌<◌, ◌≡◌, refl, sym, ap, ◌∙◌, arith, List, [], ◌∷◌, ◌++◌,
  length, length-append, get_or, drop, find_if, min, ltb, leb, ◌&&◌, ◌==◌, if◌then◌else◌, none,
  some, get_or-drop, length-drop, append-nil, append_assoc,
}
use mini_dds.Rtps.Types.{Guid, SequenceNumber, sequence_number_eq}
use mini_dds.History.{CacheChange, alive, trim}
use mini_dds.History.Trim.{trim_lem, trim-trim_append, length-trim}
use mini_dds.History.Writer.{WriterHistory, new_writer_history, add, find, size}

abbrev pub change_of : Guid → ℕ → List ℕ → CacheChange
change_of g n payload = record {
  kind = alive;
  writer_guid = g;
  sequence_number = record { value = n };
  serialized_payload = payload;
}

-- The changes that carry a log, numbered from `n` on.
abbrev pub numbered : Guid → ℕ → List (List ℕ) → List CacheChange
numbered g n [] = []
numbered g n (p ∷ ps) = change_of g n p ∷ numbered g (n + 1) ps

-- The history keeps the last `depth` payloads of the log, numbered from 1.
pub record Keeps (log : List (List ℕ)) (h : WriterHistory) : Type 0 where
  pub room : 1 ≤ h.depth
  pub next : h.next_sequence_number ≡ length log + 1
  pub kept : h.changes ≡ trim h.depth (numbered h.writer_guid 1 log)

numbered-append :
    (g : Guid) (n : ℕ) (ps : List (List ℕ)) (p : List ℕ)
    → numbered g n (ps ++ p ∷ []) ≡ numbered g n ps ++ change_of g (n + length ps) p ∷ []
numbered-append g n [] p = ap (λ (k : ℕ). change_of g k p ∷ []) (omega arith)
numbered-append g n (q ∷ ps) p = ap (◌∷◌ (change_of g n q)) (
    numbered-append g (n + 1) ps p
    ∙ ap (λ (k : ℕ). numbered g (n + 1) ps ++ change_of g k p ∷ []) (shift n (length ps)))
  where
    shift : (a b : ℕ) → a + 1 + b ≡ a + suc b
    shift a b = omega arith

pub new_writer_history-Keeps : (g : Guid) (depth : ℕ) → Keeps [] (new_writer_history g depth)
unfolding new_writer_history trim
new_writer_history-Keeps g depth = record { room = omega arith; next = refl; kept = refl }

-- Adding a payload to a writer's history that keeps the end of a log, of fewer than 2 ^ 63 - 1
-- payloads, returns the change with the number that follows, and the history then keeps the end of
-- the log with the payload at its end.
pub add-Keeps :
    (log : List (List ℕ)) (h : WriterHistory) (p : List ℕ)
    → Keeps log h
    → length log < 2 ^ 63 - 1
    → ((add p h).0 ≡ change_of h.writer_guid (length log + 1) p) × Keeps (log ++ p ∷ []) (add p h).1
unfolding add
add-Keeps log h p v small = (
  ap (λ (n : ℕ). change_of h.writer_guid n p) v.next,
  record {
    room = v.room;
    next = omega (arith, v.next, length-append log (p ∷ []));
    kept =
        ap
          (λ (cs : List CacheChange).
            trim h.depth (cs ++ change_of h.writer_guid h.next_sequence_number p ∷ []))
          v.kept
        ∙ trim-trim_append h.depth (numbered h.writer_guid 1 log)
            (change_of h.writer_guid h.next_sequence_number p)
        ∙ ap (trim h.depth) (appended ∙ sym (numbered-append h.writer_guid 1 log p));
  },
)
  where
    appended :
        numbered h.writer_guid 1 log ++ change_of h.writer_guid h.next_sequence_number p ∷ []
        ≡ numbered h.writer_guid 1 log ++ change_of h.writer_guid (1 + length log) p ∷ []
    appended =
        ap (λ (n : ℕ). numbered h.writer_guid 1 log ++ change_of h.writer_guid n p ∷ [])
          (omega (arith, v.next))

-- All the payloads of a list, one after the other.
pub add_all : List (List ℕ) → WriterHistory → WriterHistory
add_all [] h = h
add_all (p ∷ ps) h = add_all ps (add p h).1

pub add_all-Keeps :
    (ps log : List (List ℕ)) (h : WriterHistory)
    → Keeps log h
    → length log + length ps < 2 ^ 63
    → Keeps (log ++ ps) (add_all ps h)
unfolding add_all
add_all-Keeps [] log h v small = rw append-nil v
add_all-Keeps (p ∷ ps) log h v small = rw (append_assoc log (p ∷ []) ps) at (
    add_all-Keeps ps (log ++ p ∷ []) (add p h).1 (add-Keeps log h p v (omega arith)).1
      (omega (arith, length-append log (p ∷ []))))

get_or-cons_sub :
    (p : List ℕ) (ps : List (List ℕ)) (n m : ℕ)
    → n < m
    → get_or (p ∷ ps) (m - n) [] ≡ get_or ps (m - (n + 1)) []
get_or-cons_sub p ps n m h = ap (λ (k : ℕ). get_or (p ∷ ps) k []) step
  where
    step : m - n ≡ suc (m - (n + 1))
    step = omega arith

find_if-numbered :
    (g : Guid) (n m : ℕ) (ps : List (List ℕ))
    → find_if (λ (c : CacheChange). c.sequence_number.value == m) (numbered g n ps) ≡ (
        if leb n m && ltb m (n + length ps)
        then some (change_of g m (get_or ps (m - n) []))
        else none)
find_if-numbered g n m [] = ground arith
find_if-numbered g n m (p ∷ ps) =
    ground (arith, find_if-numbered g (n + 1) m ps, get_or-cons_sub p ps n m)

drop-numbered :
    (g : Guid) (k n : ℕ) (ps : List (List ℕ))
    → drop k (numbered g n ps) ≡ numbered g (n + k) (drop k ps)
drop-numbered g zero n ps = ap (λ (j : ℕ). numbered g j ps) (omega arith)
drop-numbered g (suc k) n [] = refl
drop-numbered g (suc k) n (p ∷ ps) =
    drop-numbered g k (n + 1) ps ∙ ap (λ (j : ℕ). numbered g j (drop k ps)) (omega arith)

length-numbered : (g : Guid) (n : ℕ) (ps : List (List ℕ)) → length (numbered g n ps) ≡ length ps
length-numbered g n [] = refl
length-numbered g n (p ∷ ps) = ap suc (length-numbered g (n + 1) ps)

-- The first number that the history still holds.
abbrev pub oldest : List (List ℕ) → WriterHistory → ℕ
oldest log h = length log - h.depth + 1

pub changes_lem :
    (log : List (List ℕ)) (h : WriterHistory)
    → Keeps log h
    → h.changes ≡ numbered h.writer_guid (oldest log h) (drop (length log - h.depth) log)
changes_lem log h v =
    v.kept
    ∙ trim_lem h.depth (numbered h.writer_guid 1 log)
    ∙ ap (λ (n : ℕ). drop (n - h.depth) (numbered h.writer_guid 1 log))
        (length-numbered h.writer_guid 1 log)
    ∙ drop-numbered h.writer_guid (length log - h.depth) 1 log
    ∙ ap (λ (n : ℕ). numbered h.writer_guid n (drop (length log - h.depth) log)) (omega arith)

get_or-window :
    (log : List (List ℕ)) (k m : ℕ)
    → k + 1 ≤ m
    → get_or (drop k log) (m - (k + 1)) [] ≡ get_or log (m - 1) []
get_or-window log k m h =
    sym (get_or-drop k (m - (k + 1)) log []) ∙ ap (λ (i : ℕ). get_or log i []) (omega arith)

-- In a writer's history that keeps the end of a log, a number is found exactly if it is one of the
-- last numbers of the log, as many as the history is deep, and then with the payload that was added
-- under it.
pub find_lem :
    (log : List (List ℕ)) (h : WriterHistory) (n : SequenceNumber)
    → Keeps log h
    → find n h ≡ (
        if leb (oldest log h) n.value && ltb n.value (length log + 1)
        then some (change_of h.writer_guid n.value (get_or log (n.value - 1) []))
        else none)
unfolding find sequence_number_eq
find_lem log h n v =
    ap (find_if (λ (c : CacheChange). c.sequence_number.value == n.value)) (changes_lem log h v)
    ∙ find_if-numbered h.writer_guid (oldest log h) n.value (drop (length log - h.depth) log)
    ∙ ground (
      arith,
      length-drop (length log - h.depth) log,
      get_or-window log (length log - h.depth) n.value,
    )

-- The history holds the last `depth` changes, or all if they are fewer.
pub size_lem :
    (log : List (List ℕ)) (h : WriterHistory) → Keeps log h → size h ≡ min h.depth (length log)
unfolding size
size_lem log h v =
    ap length v.kept
    ∙ length-trim h.depth (numbered h.writer_guid 1 log)
    ∙ ap (min h.depth) (length-numbered h.writer_guid 1 log)
