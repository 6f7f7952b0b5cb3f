-- ===== src/Tests/Vision.antt =====
-- Vision (src/proxy/vless/vision.cpp) on short streams.
use cppvless.Common.{
  ℕ, ◌+◌, ◌%◌, ◌≡◌, ◌≢◌, ◌↔◌, refl, arith, suc, List, [], ◌∷◌, ◌++◌, Bytes, drop, joined, replicate,
  equal, true, none, some,
}
use cppvless.Server.UdpRelay.Segments.{received_all}
use cppvless.Server.TcpRelay.{forward_vision}
use cppvless.Server.TcpRelay.Delivered.{
  kept, shutdown, open_with, shut_with, forward_vision-write_all,
}
use cppvless.Server.TcpRelay.{copy}
use cppvless.Server.TargetTask.{respond_vision}
use cppvless.Server.TargetTask.Vision.{responded, respond_vision-process_all}
use cppvless.Tests.Data.{below}
use cppvless.Vision.Context.{initial_context}
use cppvless.Vision.Reader.{new_reader}
use cppvless.Vision.Reader.Feed.{feed}
use cppvless.Vision.Reader.Segments.{process_all, process_all-joined, began}
use cppvless.Vision.Writer.{new_writer, padding, draw_padding, random_bytes}
use cppvless.Vision.Writer
use cppvless.Vision.RoundTrip.{write_all, process_all-write_all}
use cppvless.Vision.Records.{is_complete_record}
use cppvless.Vision.Records.Complete.{IsRecords}
use cppvless.Vision.Records.Laws.{is_complete_record_iff}
use cppvless.Vision.TlsFilter.{filter_tls, scan_hello, scan_versions, detect_hello, read_cipher}
use cppvless.Vision.TlsFilter.Laws.{HasTls13, filter_tls-enable_xtls}

-- A generator that counts.
abbrev uniform : ℕ → ℕ → ℕ × ℕ
uniform b g = (g % suc b, g + 1)

abbrev uuid : Bytes
uuid = replicate 16 7

abbrev chunks : List Bytes
chunks = (1 ∷ 2 ∷ 3 ∷ []) ∷ (4 ∷ 5 ∷ []) ∷ []

abbrev first_read : Bytes
first_read = uuid ++ (0 ∷ 0 ∷ 3 ∷ 0 ∷ 3 ∷ 1 ∷ [])

abbrev later_reads : List Bytes
later_reads =
    (2 ∷ 3 ∷ 4 ∷ 5 ∷ 6 ∷ [])
    ∷ (0 ∷ 0 ∷ 2 ∷ 0 ∷ 7 ∷ 4 ∷ 5 ∷ 8 ∷ 9 ∷ 10 ∷ 11 ∷ 12 ∷ 13 ∷ 14 ∷ [])
    ∷ []

stream : joined (first_read ∷ later_reads) ≡ write_all uniform (new_writer uuid 3) none chunks
unfolding write_all Writer.process padding draw_padding random_bytes
stream = refl

process_all-write_all_example :
    process_all (new_reader uuid) (some initial_context) (first_read ∷ later_reads)
    ≡ 1 ∷ 2 ∷ 3 ∷ 4 ∷ 5 ∷ []
process_all-write_all_example =
    process_all-write_all uniform uuid (1 ∷ 2 ∷ 3 ∷ []) ((4 ∷ 5 ∷ []) ∷ []) later_reads first_read 3
      none (some initial_context) refl (omega arith) (omega arith, (omega arith, tt)) stream
      (omega arith)

forward_vision-write_all_example :
    forward_vision kept shutdown
      (new_reader uuid)
      (some initial_context)
      first_read
      (received_all later_reads)
      (open_with [])
    ≡ (true, shut_with (1 ∷ 2 ∷ 3 ∷ 4 ∷ 5 ∷ []))
forward_vision-write_all_example =
    forward_vision-write_all uniform uuid (1 ∷ 2 ∷ 3 ∷ []) ((4 ∷ 5 ∷ []) ∷ []) later_reads
      first_read 3 none (some initial_context) refl (omega arith) (omega arith, (omega arith, tt))
      stream (omega arith) (tt, (tt, tt))

respond_vision-process_all_example :
    ((responded uniform uuid 3 none chunks).0 ≡ true)
    × ((responded uniform uuid 3 none chunks).1.shut ≡ true)
    × (process_all (new_reader uuid) (some initial_context) (first_read ∷ later_reads)
        ≡ 1 ∷ 2 ∷ 3 ∷ 4 ∷ 5 ∷ [])
respond_vision-process_all_example =
    respond_vision-process_all uniform uuid (1 ∷ 2 ∷ 3 ∷ []) ((4 ∷ 5 ∷ []) ∷ []) later_reads
      first_read 3 none (some initial_context) refl (tt, (tt, tt)) (omega arith, (omega arith, tt))
      (unfold respond_vision copy Writer.process padding draw_padding random_bytes in refl)
      (omega arith)

process_all-joined_example :
    process_all (new_reader uuid) none (first_read ∷ later_reads)
    ≡ (feed (drop 16 (first_read ++ joined later_reads)) (began uuid)).0
process_all-joined_example = process_all-joined uuid first_read later_reads none (omega arith) refl

abbrev records : Bytes
records = 0x17 ∷ 0x03 ∷ 0x03 ∷ 0 ∷ 2 ∷ 8 ∷ 9 ∷ []

is_complete_record_iff_example : (is_complete_record records ≡ true) ↔ IsRecords records
is_complete_record_iff_example = is_complete_record_iff records (below 256 records refl)

abbrev hello : Bytes
hello = 0x16 ∷ 0x03 ∷ 0x03 ∷ 0 ∷ 40 ∷ 0x02 ∷ 0x00 ∷ 0x2b ∷ 0x00 ∷ 0x02 ∷ 0x03 ∷ 0x04 ∷ []

enabled : (filter_tls initial_context hello).enable_xtls ≡ true
unfolding filter_tls scan_hello scan_versions detect_hello read_cipher equal
enabled = refl

filter_tls-enable_xtls_example :
    ((i : ℕ) × HasTls13 hello i)
    × ((filter_tls initial_context hello).cipher ≢ 0x1305)
    × ((filter_tls initial_context hello).packets_to_filter ≡ 0)
filter_tls-enable_xtls_example = filter_tls-enable_xtls initial_context hello refl enabled
