-- ===== src/Fwbank/Tasks.antt =====
-- src/fwbank.c: what a task leaves in its pipe, and what the three finish callbacks do with it.
use sysmngr.Prelude.{
  ℕ, ◌+◌, ◌*◌, Bool, true, false, ◌&&◌, Option, none, some, ◌>>=◌, List, [], ◌∷◌, ◌++◌, ltb, ◌==◌,
  reverse, if◌then◌else◌, codes, text_eq, get_or, take,
}
use sysmngr.Prelude.Strings.{Text}
use sysmngr.Fwbank.{
  Blob, Fork, Finish, Task, Fwbank, BlobType, send_reply, complete_deferred, send,
  init_global_fwbank_dump, validate_global_fwbank_dump, dump_max_retries, dump_retry_delay,
}

-- getline: the line with its newline, if it has one.
lines_from : Text → Text → List Text
lines_from [] [] = []
lines_from (a ∷ acc) [] = reverse (a ∷ acc) ∷ []
lines_from acc (c ∷ s) =
    let ended = reverse (c ∷ acc) ∷ lines_from [] s in
    let longer = lines_from (c ∷ acc) s in if c == 10 then ended else longer

unfoldable pub getline_lines : Text → List Text
unfolding lines_from
getline_lines s = lines_from [] s

abbrev pub cut_last : Text → Text
cut_last [] = []
cut_last (c ∷ []) = []
cut_last (c ∷ d ∷ s) = c ∷ cut_last (d ∷ s)

abbrev pub cut_each : List Text → Text
cut_each [] = []
cut_each (line ∷ lines) = cut_last line ++ cut_each lines

-- The child prints each line of the command without its last byte.
unfoldable pub task_callback : Text → Text
unfolding getline_lines
task_callback output = cut_each (getline_lines output)

-- The reads of the pipe: the chunks of at most 1023 bytes, and then its end or an error.
pub record Pipe : Type 0 where
  pub chunks : List Text
  pub failed : Bool

-- The buffer after the reads: each chunk takes the place of the one before.
abbrev pub last_chunk : Text → List Text → Text
last_chunk buffer [] = buffer
last_chunk buffer (chunk ∷ chunks) = last_chunk chunk chunks

unfoldable pub read_pipe : Pipe → Option Text
read_pipe p = if p.failed then none else some (last_chunk [] p.chunks)

module _ (b : Blob) where
  -- The dump in the buffer, none where the source goes to retry.
  abbrev pub checked_dump : Text → Option (List b.Attr)
  checked_dump [] = none
  checked_dump (c ∷ s) =
      b.from_json (c ∷ s) >>= λ temp. if validate_global_fwbank_dump b temp then some temp else none

  unfoldable pub parsed_dump : Option Text → Option (List b.Attr)
  parsed_dump none = none
  parsed_dump (some buffer) = checked_dump buffer

  -- The first attribute of the dump is what is kept of it; without one, the attempt is made again.
  unfoldable pub store_or_retry : Option (List b.Attr) → Fwbank b → Fwbank b
  store_or_retry none s =
      if ltb s.retry_count dump_max_retries
      then record s { retry_count = s.retry_count + 1; tm = some (dump_retry_delay * 1000) }
      else s
  store_or_retry (some temp) s = record s { output = some (take 1 temp) }

  unfoldable pub fwbank_dump_finish_callback : Pipe → Fwbank b → Fwbank b
  unfolding store_or_retry parsed_dump read_pipe
  fwbank_dump_finish_callback p s = store_or_retry (parsed_dump (read_pipe p)) s

  -- blobmsg_parse with a policy of one row, and the attribute found.
  abbrev pub parsed_field : Text → BlobType → List b.Attr → Option b.Attr
  parsed_field field type output = b.parse ((field, type) ∷ []) output >>= λ tb. get_or tb 0 none

  unfoldable pub is_set_bootbank_success : List b.Attr → Bool
  is_set_bootbank_success output = elim (parsed_field (codes "success") BlobType.bool output) [
    | none ↦ false
    | some a ↦ b.has_type a BlobType.bool && b.get_bool a
  ]

  unfoldable pub is_upgrade_success : List b.Attr → Bool
  is_upgrade_success output = elim (parsed_field (codes "result") BlobType.string output) [
    | none ↦ false
    | some a ↦ b.has_type a BlobType.string && text_eq (b.get_string a) (codes "ok")
  ]

  abbrev pub reply_if : Option ℕ → Option ℕ → List b.Attr → Fwbank b → Fwbank b
  reply_if none req output s = s
  reply_if (some ctx) req output s = send b (send_reply req (some output)) s

  abbrev pub set_bootbank_answer :
      Fork → Option ℕ → Option ℕ → Option (List b.Attr) → Fwbank b → Fwbank b
  set_bootbank_answer fork ctx req none s = s
  set_bootbank_answer fork ctx req (some output) s =
      let t = reply_if ctx req output s in
      if is_set_bootbank_success output then (init_global_fwbank_dump b fork t).1 else t

  -- `req` is new_req of the task, which is never a null pointer.
  unfoldable pub fwbank_set_bootbank_finish_callback :
      Fork → Pipe → Option ℕ → Option ℕ → Fwbank b → Fwbank b
  unfolding read_pipe is_set_bootbank_success
  fwbank_set_bootbank_finish_callback fork p ctx req s =
      set_bootbank_answer fork ctx req (read_pipe p >>= b.from_json) s

  -- The handler is registered for 120 seconds.
  unfoldable pub fwbank_wait_for_sysupgrade_event : ℕ → ℕ → Fwbank b → Fwbank b
  fwbank_wait_for_sysupgrade_event ctx band_id s = record s {
    event = record s.event {
      ctx = some ctx;
      tm = some (s.event.timeout * 1000);
      registered = true;
      band_id = band_id;
    };
  }

  abbrev pub wait_if : Option ℕ → Bool → ℕ → Fwbank b → Fwbank b
  wait_if (some ctx) true bank_id s = fwbank_wait_for_sysupgrade_event ctx bank_id s
  wait_if _ _ bank_id s = s

  abbrev pub upgrade_answer : Option ℕ → Option ℕ → ℕ → Option (List b.Attr) → Fwbank b → Fwbank b
  upgrade_answer ctx req bank_id none s = s
  upgrade_answer ctx req bank_id (some output) s =
      wait_if ctx (is_upgrade_success output) bank_id (reply_if ctx req output s)

  unfoldable pub fwbank_upgrade_finish_callback :
      Pipe → Option ℕ → Option ℕ → ℕ → Fwbank b → Fwbank b
  unfolding read_pipe is_upgrade_success fwbank_wait_for_sysupgrade_event
  fwbank_upgrade_finish_callback p ctx req bank_id s =
      upgrade_answer ctx req bank_id (read_pipe p >>= b.from_json) s

  abbrev pub run_finish : Fork → Pipe → Task → Option Finish → Fwbank b → Fwbank b
  run_finish fork p task none s = s
  run_finish fork p task (some Finish.dump) s = fwbank_dump_finish_callback p s
  run_finish fork p task (some Finish.set_bootbank) s =
      fwbank_set_bootbank_finish_callback fork p task.ctx task.new_req s
  run_finish fork p task (some Finish.upgrade) s =
      fwbank_upgrade_finish_callback p task.ctx task.new_req task.bank_id s

  abbrev pub complete_if : Option ℕ → Option ℕ → Option ℕ → Fwbank b → Fwbank b
  complete_if (some ctx) (some req) new_req s = send b (complete_deferred new_req) s
  complete_if _ _ new_req s = s

  -- The child of the task has ended. The task, which the caller takes out of the tasks, is freed.
  unfoldable pub _sysmngr_task_finish_callback : Fork → Pipe → Task → Fwbank b → Fwbank b
  unfolding fwbank_dump_finish_callback fwbank_set_bootbank_finish_callback
      fwbank_upgrade_finish_callback
  _sysmngr_task_finish_callback fork p task s =
      complete_if task.ctx task.req task.new_req (run_finish fork p task task.finishcb s)
