-- ===== src/Reporter.antt =====
-- receiver/src/dash_receiver.c: the queue of status messages for the dashboard, which the main loop
-- fills and a thread of its own empties.
pub mod Fifo
use lifi_auth.Common.{
  ℕ, zero, suc, ◌+◌, ◌-◌, ◌%◌, Bool, true, false, ◌||◌, Option, some, none, List, [], ◌∷◌, ◌++◌,
}
use lifi_auth.Common.{take, length, get_or, set, ltb, ◌==◌, if◌then◌else◌, codes}

-- `STATUS_QUEUE_SIZE`.
abbrev pub status_queue_size : ℕ
status_queue_size = 32

-- `g_status_queue`, a ring of messages, with `g_status_head`, `g_status_tail` and
-- `g_status_count`.
pub record StatusQueue : Type 0 where
  pub slots : List (List ℕ)
  pub head : ℕ
  pub tail : ℕ
  pub count : ℕ

-- Under the lock, as all that follows: 319 characters are kept, and a full queue drops the message.
unfoldable pub reporter_post_status_message : List ℕ → StatusQueue → StatusQueue
reporter_post_status_message message q =
    if ltb q.count status_queue_size
    then record q {
      slots = set q.slots q.tail (take 319 message);
      tail = (q.tail + 1) % status_queue_size;
      count = q.count + 1;
    }
    else q

-- What the thread takes. `none`: it waits.
unfoldable pub next_message : StatusQueue → Option (List ℕ × StatusQueue)
next_message q =
    if q.count == 0
    then none
    else some (
      get_or q.slots q.head [],
      record q { head = (q.head + 1) % status_queue_size; count = q.count - 1 },
    )

-- The loop that puts a backslash in front of quotes and backslashes, with the room that is left
-- of 256 bytes less 2. A pair that begins within it is finished.
unfoldable pub escape : ℕ → List ℕ → List ℕ
escape zero text = []
escape (suc room) [] = []
escape (suc room) (c ∷ cs) =
    let plain = escape room cs in
    let quoted = escape (room - 1) cs in
    if (c == b'"') || (c == b'\\') then b'\\' ∷ c ∷ quoted else c ∷ plain

-- The body that is posted.
unfoldable pub status_json : List ℕ → List ℕ
status_json message =
    take 319
      (codes "{\"event\":\"status_message\",\"message\":\"" ++ (escape 254 message ++ codes "\"}"))
