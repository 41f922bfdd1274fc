-- ===== src/ParseRecordlog/Laws.antt =====
-- parse_recordlog.rs: what is printed of a log that the recorder wrote.
use rr_channel.Prelude.{
  ℕ, String, ◌≡◌, refl, ap, ◌∙◌, Bool, Option, none, some, List, ok, err, Result, returns,
}
use mathlib.Core.Option
use rr_channel.Prelude.Map.{get}
use rr_channel.DetThread.Id.{DetThreadId, from_slice, id_eq}
use rr_channel.DetThread.Id.Paths.{Represents, from_slice-Represents, Represents-functional}
use rr_channel.RecordLog.{RecordEntry, Entries, LogQueue, GlobalRecorder, Ron, flush}
use rr_channel.RecordLog.Laws.{IsRecorder, get_all_entries_lem, flush-eq-ok}
use rr_channel.ParseRecordlog.{
  Printed, thread_entries, MainError, no_such_entry, main, print, print_thread,
}

-- What is printed of a thread, by what the recorder has of it.
abbrev pub shown : Option (List RecordEntry) → Result Printed MainError
shown none = err no_such_entry
shown (some es) = ok (thread_entries es)

from_slice_of : (id : DetThreadId) (path : List ℕ) → Represents id path → from_slice path ≡ some id
from_slice_of id path r =
    let (id', e, r') = from_slice-Represents path r.fits in
    e ∙ ap some (Represents-functional id' id path r' r)

module _ (ron : Ron) (read : String → Option String) (parse_id : String → Option (List ℕ)) where
  print-shown :
      (log : Entries) (arg : String) (id : DetThreadId) (slice : List ℕ)
      (o : Option (List RecordEntry))
      → parse_id arg ≡ some slice
      → from_slice slice ≡ some id
      → get log id ≡ o
      → print ron read parse_id (some arg) log ≡ returns (shown o)
  unfolding print print_thread
  print-shown log arg id slice none p e h = rw (p, print_thread) (rw (e, print_thread) (rw h refl))
  print-shown log arg id slice (some es) p e h =
      rw (p, print_thread) (rw (e, print_thread) (rw h refl))

module _ {Q : Type 0} ⦃q : LogQueue Q⦄ (ron : Ron) (writable : String → String → Bool)
    (read : String → Option String) (parse_id : String → Option (List ℕ)) where
  -- For a log file that was flushed without an error, where no thread had two receivers, and an
  -- argument that parses to the path of an id, the program prints the entries that the thread of
  -- this id sent, in order, and fails if the thread has no receiver.
  pub main_lem :
      (g : GlobalRecorder Q) (path text arg : String) (id : DetThreadId) (slice : List ℕ)
      → IsRecorder g
      → flush ron writable g ≡ ok (path, text)
      → read path ≡ some text
      → parse_id arg ≡ some slice
      → Represents id slice
      → main ron read parse_id (record { recordlog_file = path; thread_id = some arg })
        ≡ returns (shown (Option.map q.try_iter (get g.recorder id)))
  unfolding main
  main_lem g path text arg id slice d fl rd parsed rep =
      let (hm, e, f) = get_all_entries_lem g d in
      let (hm', back, same) = ron.from_str-to_string hm text (flush-eq-ok ron writable g hm e fl) in
      let held : get hm' id ≡ Option.map q.try_iter (get g.recorder id) = same id ∙ f id in
      rw (rd, main)
        (rw (back, main)
          (print-shown ron read parse_id hm' arg id slice _ parsed (from_slice_of id slice rep)
            held))
