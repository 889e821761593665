-- ===== src/Writer/Tests.antt =====
-- Tests of the buffered writer.
use t_sync_sdk_go.Base.{ℕ, ◌≤◌, ◌≡◌, refl, false, Option, none, some, [], ◌++◌, arith, length}
use t_sync_sdk_go.Base.Bytes.{Bytes, codes}
use t_sync_sdk_go.Errors.{GoError, plain, ok}
use t_sync_sdk_go.Writer.{
  max_multipart_parts, part_size_for, doubled, Client, Writer, new_writer, write, write_loop,
  make_room, fill, abort_writer, close,
}
use t_sync_sdk_go.Writer.Content.{Holds, Holds-new, GivesIds}
use t_sync_sdk_go.Writer.Write.{write-Holds}
use t_sync_sdk_go.Writer.Close.{close-Committed, Committed, part_number-le-max}
use t_sync_sdk_go.Writer.Failure.{IsInert, closed_for_good, close-Aborted, Aborted}

-- A provider that takes everything but completions and single objects that are refused.
abbrev provider : Option GoError → Client
provider refusal = record {
  on_initiate = λ calls. ok (codes "id");
  on_upload = λ calls. ok (codes "tag");
  on_complete = λ calls. refusal;
  on_abort = λ calls. none;
  on_put = λ calls. refusal;
}

provider-GivesIds : (refusal : Option GoError) → GivesIds (provider refusal)
provider-GivesIds refusal calls e = absurd (ground arith)

abbrev text : Bytes
text = codes "content"

abbrev written : Writer
written = (write (provider none) text new_writer).0

write_accepts : write (provider none) text new_writer ≡ (written, 7, none)
unfolding write write_loop make_room fill part_size_for doubled
write_accepts = refl

written-Holds : Holds text written
unfolding write write_loop make_room fill part_size_for doubled
written-Holds =
    (write-Holds (provider none) [] text new_writer written 7 (provider-GivesIds none) Holds-new
      write_accepts).1

close_accepts : close (provider none) written ≡ ((close (provider none) written).0, none)
unfolding write write_loop make_room fill part_size_for doubled close
close_accepts = refl

close_refuses :
    close (provider (some plain)) written ≡ ((close (provider (some plain)) written).0, some plain)
unfolding write write_loop make_room fill part_size_for doubled close
close_refuses = refl

written_open : written.closed ≡ false
unfolding write write_loop make_room fill part_size_for doubled
written_open = refl

write-Holds_example : ◌≡◌ {A = ℕ} 7 (length text) × Holds ([] ++ text) written
write-Holds_example =
    write-Holds (provider none) [] text new_writer written 7 (provider-GivesIds none) Holds-new
      write_accepts

close-Committed_example : Committed text (close (provider none) written).0.calls
close-Committed_example =
    close-Committed (provider none) text written (close (provider none) written).0 written-Holds
      close_accepts

part_number-le-max_example : written.part_number ≤ max_multipart_parts
part_number-le-max_example = part_number-le-max text written written-Holds (omega arith)

closed_for_good_example :
    IsInert (provider none) text (close (provider none) written).0
    × IsInert (provider none) text (abort_writer (provider none) written).0
closed_for_good_example = closed_for_good (provider none) written text

close-Aborted_example : Aborted (close (provider (some plain)) written).0
close-Aborted_example =
    close-Aborted (provider (some plain)) written (close (provider (some plain)) written).0 plain
      written_open close_refuses
