-- ===== src/Tests/Histories.antt =====
-- The two histories at concrete states.
use mini_dds.Prelude.{
  ℕ, ◌≡◌, arith, List, [], ◌∷◌, true, false, ◌&&◌, ltb, leb, if◌then◌else◌, none, some, ◌⊎◌,
}
use mini_dds.History.{CacheChange}
use mini_dds.History.Writer.{WriterHistory, new_writer_history}
use mini_dds.History.Writer
use mini_dds.History.Writer.Log.{
  Keeps, change_of, new_writer_history-Keeps, add-Keeps, add_all, add_all-Keeps, find_lem, oldest,
}
use mini_dds.History.Reader.{ReaderHistory, new_reader_history}
use mini_dds.History.Reader
use mini_dds.History.Reader.Distinct.{
  IsQueue, new_reader_history-IsQueue, add-IsQueue, take-IsQueue,
}
use mini_dds.Tests.Values.{guid_one, change_one}

abbrev written : WriterHistory
written = new_writer_history guid_one 2

abbrev payloads : List (List ℕ)
payloads = (1 ∷ []) ∷ (2 ∷ []) ∷ (3 ∷ []) ∷ []

abbrev three_written : WriterHistory
three_written = add_all payloads written

three_written-Keeps : Keeps payloads three_written
three_written-Keeps =
    add_all-Keeps payloads [] written (new_writer_history-Keeps guid_one 2) (omega arith)

add-Keeps_example :
    ((Writer.add (9 ∷ []) written).0 ≡ change_of guid_one 1 (9 ∷ []))
    × Keeps ((9 ∷ []) ∷ []) (Writer.add (9 ∷ []) written).1
unfolding new_writer_history
add-Keeps_example =
    add-Keeps [] written (9 ∷ []) (new_writer_history-Keeps guid_one 2) (omega arith)

add_all-Keeps_example : Keeps payloads (add_all payloads written)
add_all-Keeps_example =
    add_all-Keeps payloads [] written (new_writer_history-Keeps guid_one 2) (omega arith)

find_lem_example : Writer.find (record { value = 1 }) three_written ≡ (
    if leb (oldest payloads three_written) 1 && ltb 1 4
    then some (change_of three_written.writer_guid 1 (1 ∷ []))
    else none)
find_lem_example = find_lem payloads three_written (record { value = 1 }) three_written-Keeps

abbrev one_read : ReaderHistory
one_read = (Reader.add (change_one 1) (new_reader_history 2)).1

one_read-IsQueue : IsQueue one_read
one_read-IsQueue =
    (add-IsQueue (change_one 1) (new_reader_history 2) (new_reader_history-IsQueue 2)).0

add-IsQueue_example :
    IsQueue (Reader.add (change_one 1) one_read).1
    × (((Reader.contains guid_one (record { value = 1 }) one_read ≡ true)
          × (Reader.add (change_one 1) one_read ≡ (false, one_read)))
        ⊎ ((Reader.contains guid_one (record { value = 1 }) one_read ≡ false)
            × ((Reader.add (change_one 1) one_read).0 ≡ true)
            × (Reader.contains guid_one
                  (record { value = 1 })
                  (Reader.add (change_one 1) one_read).1
                ≡ true)))
add-IsQueue_example = add-IsQueue (change_one 1) one_read one_read-IsQueue

take-IsQueue_example :
    IsQueue (Reader.take one_read).1
    × (((one_read.changes ≡ []) × (Reader.take one_read ≡ (none, one_read)))
        ⊎ ((c : CacheChange) × ((Reader.take one_read).0 ≡ some c)
            × (one_read.changes ≡ c ∷ (Reader.take one_read).1.changes)
            × (Reader.contains c.writer_guid c.sequence_number (Reader.take one_read).1 ≡ false)))
take-IsQueue_example = take-IsQueue one_read one_read-IsQueue
