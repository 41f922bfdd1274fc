-- ===== src/ParseRecordlog.antt =====
-- parse_recordlog.rs: the program that prints a log, or the entries of one thread in it.
pub mod Laws
use rr_channel.Prelude.{
  ℕ, String, Option, none, some, List, Result, ok, err, Outcome, returns, panics,
}
use rr_channel.Prelude.Map.{get}
use rr_channel.DetThread.Id.{from_slice, id_eq}
use rr_channel.RecordLog.{RecordEntry, Entries, Ron}

pub record CmdLineOptions : Type 0 where
  pub recordlog_file : String
  pub thread_id : Option String

-- What is printed, as Debug shows it.
pub data Printed : Type 0 where
  thread_entries : List RecordEntry → Printed
  whole_log : Entries → Printed

-- Why `main` gives up.
pub data MainError : Type 0 where
  not_read not_a_log not_an_id no_such_entry : MainError

-- `parse_id` is `ron::from_str` at a list of numbers.
module _ (ron : Ron) (read : String → Option String) (parse_id : String → Option (List ℕ)) where
  print_thread : Entries → String → Outcome (Result Printed MainError)
  print_thread recordlog thread_id = elim (parse_id thread_id) [
    | none ↦ returns (err not_an_id)
    | some id ↦ elim (from_slice id) [
      | none ↦ panics
      | some dti ↦ elim (get recordlog dti) [
        | none ↦ returns (err no_such_entry)
        | some entries ↦ returns (ok (thread_entries entries))
      ]
    ]
  ]

  print : Option String → Entries → Outcome (Result Printed MainError)
  print (some thread_id) recordlog = print_thread recordlog thread_id
  print none recordlog = returns (ok (whole_log recordlog))

  pub main : CmdLineOptions → Outcome (Result Printed MainError)
  unfolding print print_thread
  main opt = elim (read opt.recordlog_file) [
    | none ↦ returns (err not_read)
    | some input ↦ elim (ron.from_str input) [
      | none ↦ returns (err not_a_log)
      | some recordlog ↦ print opt.thread_id recordlog
    ]
  ]
