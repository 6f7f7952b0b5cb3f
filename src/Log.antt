-- ===== src/Log.antt =====
-- src/common/log.cpp: the queue between the threads that log and the one that writes. Each section
-- under the lock is one step. The time stamp and the thread id are arguments.
pub mod Queue
use cppvless.Common.{
  ℕ, zero, suc, ◌+◌, Bool, true, false, not, ◌||◌, List, [], ◌∷◌, ◌++◌, Bytes, length, take, drop,
  min, ltb, leb, equal, if◌then◌else◌, codes,
}

pub data LogLevel : Type 0 where
  none_level error warn info debug : LogLevel

abbrev pub max_queue_size : ℕ
max_queue_size = 100000

abbrev pub batch_limit : ℕ
batch_limit = 1024

-- The numbers of the enumeration, in order of their severity.
abbrev pub severity : LogLevel → ℕ
severity none_level = 0
severity error = 1
severity warn = 2
severity info = 3
severity debug = 4

abbrev pub should_log : LogLevel → LogLevel → Bool
should_log threshold level = leb (severity level) (severity threshold)

abbrev pub level_name : LogLevel → Bytes
level_name error = codes "ERROR"
level_name warn = codes "WARN"
level_name info = codes "INFO"
level_name debug = codes "DEBUG"
level_name none_level = codes "NONE"

unfoldable pub parse_log_level : Bytes → LogLevel
parse_log_level s =
    if equal s (codes "none") || equal s (codes "NONE")
    then none_level
    else if equal s (codes "error") || equal s (codes "ERROR")
    then error
    else if equal s (codes "warn") || equal s (codes "WARN")
    then warn
    else if equal s (codes "info") || equal s (codes "INFO")
    then info
    else if equal s (codes "debug") || equal s (codes "DEBUG")
    then debug
    else info

abbrev pub format_log_line : Bytes → Bytes → LogLevel → Bytes → Bytes
format_log_line timestamp thread_id level message =
    codes "["
    ++ (timestamp
        ++ (codes "] ["
            ++ (level_name level
                ++ (codes "] [tid=" ++ (thread_id ++ (codes "] " ++ (message ++ (10 ∷ []))))))))

-- `Logger::Impl`, less what the operating system keeps.
pub record Logger : Type 0 where
  pub queue : List Bytes
  pub stop : Bool
  pub dropped : ℕ

abbrev pub new_logger : Logger
new_logger = record { queue = []; stop = false; dropped = 0 }

-- `enqueue`, of a line that has been formatted.
unfoldable pub enqueue : Bytes → Logger → Logger
enqueue line l =
    if leb max_queue_size (length l.queue)
    then record l { dropped = suc l.dropped }
    else record l { queue = l.queue ++ (line ∷ []) }

-- The first section of a round of `workerLoop`: the batch, which is empty only with the queue.
unfoldable pub take_batch : Logger → List Bytes × Logger
take_batch l =
    let n = min (length l.queue) batch_limit in
    (take n l.queue, record l { queue = drop n l.queue })

-- The second one: how many lines were dropped since it ran last.
unfoldable pub take_dropped : Logger → ℕ × Logger
take_dropped l = (l.dropped, record l { dropped = 0 })

-- The sections that the threads run, in the order in which they get the lock.
pub data Section : Type 0 where
  enqueues : Bytes → Section
  takes_batch takes_dropped : Section

pub record Ran : Type 0 where
  pub written : List Bytes
  pub reported : ℕ
  pub logger : Logger

abbrev and_written : List Bytes → Ran → Ran
and_written ls r = record r { written = ls ++ r.written }

abbrev and_reported : ℕ → Ran → Ran
and_reported n r = record r { reported = n + r.reported }

unfoldable pub run : Logger → List Section → Ran
unfolding enqueue take_batch take_dropped
run l [] = record { written = []; reported = 0; logger = l }
run l (enqueues line ∷ es) = run (enqueue line l) es
run l (takes_batch ∷ es) = let (batch, l') = take_batch l in and_written batch (run l' es)
run l (takes_dropped ∷ es) = let (n, l') = take_dropped l in and_reported n (run l' es)

-- `workerLoop` after `stop`, when nothing is enqueued any more: it ends on an empty queue. A round
-- takes a line at least, so the length of the queue is fuel enough.
unfoldable pub finish : ℕ → Logger → List Bytes × Logger
unfolding take_batch
finish zero l = ([], l)
finish (suc fuel) l =
    let (batch, l') = take_batch l in
    let (rest, l'') = finish fuel l' in
    if ltb 0 (length l.queue) then (batch ++ rest, l'') else ([], l)
