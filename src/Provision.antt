-- ===== src/Provision.antt =====
-- BLE provisioning, the receiving side: esp32-firmware/main/config/ble_provision.c. A write of the
-- phone goes to a queue, and the task that reads the queue gathers lines in a buffer of 4096 bytes.
pub mod Buffer
pub mod Moves
pub mod Lines
pub mod Framed
pub mod OneLine
pub mod Queue
pub mod Messages
pub mod Session
pub mod Commands
pub mod Events
pub mod Creds
pub mod Entered
pub mod Committed
pub mod Lifecycle
mod Examples
use iot_yk.Base.{
  ℕ, ◌+◌, ◌-◌, Bool, ◌&&◌, Option, none, some, List, [], ◌∷◌, ◌++◌, ltb, leb, ◌==◌, if◌then◌else◌,
  length, take, drop,
}
use iot_yk.Base.Bytes.{Run, done, fault, ◌>>=◌, write_at}
use iot_yk.Io.{c_string}

abbrev pub max_chunk_size : ℕ
max_chunk_size = 513

abbrev pub rx_buf_size : ℕ
rx_buf_size = 4096

-- `xQueueCreate(4, sizeof(rx_msg_t))`
abbrev pub rx_queue_len : ℕ
rx_queue_len = 4

-- `xQueueSend(rx_queue, &msg, 0)`: a queue that is full stays as it is.
unfoldable pub queue_send : List ℕ → List (List ℕ) → List (List ℕ)
queue_send msg queue = if ltb (length queue) rx_queue_len then queue ++ (msg ∷ []) else queue

-- What a write of the phone makes of the queue: the first 512 bytes go there.
unfoldable pub gatt_write : Bool → List ℕ → List (List ℕ) → List (List ℕ)
unfolding queue_send
gatt_write has_queue written queue =
    let len = length written in
    if ltb 0 len && has_queue
    then queue_send
        (take (if ltb (max_chunk_size - 1) len then max_chunk_size - 1 else len) written) queue
    else queue

-- `rx_buffer` and `rx_accumulation_len`
pub record Rx : Type 0 where
  pub buffer : List ℕ
  pub filled : ℕ

-- The arguments of `process_json_command`, read as C strings.
pub record Command : Type 0 where
  pub json : List ℕ
  pub hmac : Option (List ℕ)

pub data Output : Type 0 where
  quiet : Output
  overflow : Output
  command : Command → Output

unfoldable pub next_index : Option ℕ → Option ℕ
next_index none = none
next_index (some i) = some (i + 1)

-- `strchr`: the index of the first `c` before the end of the string.
unfoldable pub strchr : ℕ → List ℕ → Run (Option ℕ)
strchr c [] = fault
strchr c (x ∷ xs) =
    let rest = strchr c xs >>= λ found. done (next_index found) in
    if x == c then done (some 0) else if x == 0 then done none else rest

-- `*delim = '\0'`, and the two parts of the line.
unfoldable pub cut_hmac : Option ℕ → List ℕ → Run (Command × List ℕ)
cut_hmac none line = done (record { json = c_string line; hmac = none }, line)
cut_hmac (some i) line = write_at i (0 ∷ []) line >>= λ cut.
    done (record { json = c_string cut; hmac = some (c_string (drop (i + 1) cut)) }, cut)

-- `memmove` of what follows the line to the start.
unfoldable pub move_rest : ℕ → ℕ → List ℕ → Run Rx
move_rest processed filled buffer =
    let remaining = filled - processed in
    if ltb 0 remaining
    then (write_at 0 (take remaining (drop processed buffer)) buffer >>= λ moved.
        write_at remaining (0 ∷ []) moved >>= λ ended.
        done (record { buffer = ended; filled = remaining }))
    else (write_at 0 (0 ∷ []) buffer >>= λ ended. done (record { buffer = ended; filled = 0 }))

unfoldable pub take_line : Option ℕ → ℕ → List ℕ → Run (Output × Rx)
take_line none filled buffer = done (quiet, record { buffer = buffer; filled = filled })
take_line (some newline) filled buffer = write_at newline (0 ∷ []) buffer >>= λ line.
    strchr b'|' line >>= λ delim. cut_hmac delim line >>= λ parts.
    move_rest (newline + 1) filled parts.1 >>= λ rx. done (command parts.0, rx)

-- A round of the loop of `json_task`, for one message of the queue.
unfoldable pub json_round : Rx → List ℕ → Run (Output × Rx)
json_round rx msg =
    let len = rx.filled + length msg in
    if leb (rx_buf_size - 1) len
    then (write_at 0 (0 ∷ []) rx.buffer >>= λ ended.
        done (overflow, record { buffer = ended; filled = 0 }))
    else (write_at rx.filled msg rx.buffer >>= λ copied. write_at len (0 ∷ []) copied >>= λ ended.
        strchr b'\n' ended >>= λ newline. take_line newline len ended)

unfoldable pub json_task : Rx → List (List ℕ) → Run (List Output × Rx)
json_task rx [] = done ([], rx)
json_task rx (msg ∷ msgs) = json_round rx msg >>= λ first.
    json_task first.1 msgs >>= λ later. done (first.0 ∷ later.0, later.1)
