-- ===== src/Chardev/Spec.antt =====
-- What a submission and a cancellation are to do to a task, field by field, as include/cortex_forge_task.h
-- and include/cortex_forge_uapi.h name the fields; no definition of the driver is used.
use cortex_forge_driver.Base.{true, ℕ, [], ◌∷◌, ◌+◌, ◌-◌, ◌*◌, ◌/◌, ◌%◌, ◌^◌, false}
use cortex_forge_driver.Errno.{Ret, ok, fail, ecanceled}
use cortex_forge_driver.Uapi.{TaskDesc, TaskStatus}
use cortex_forge_driver.Task.{Task, pending, cancelled}

-- The task of a descriptor that has been submitted under an id at jiffies `now`.
abbrev pub as_submitted : TaskDesc → (id now : ℕ) → Task
as_submitted desc id now = record {
  id = id;
  state = pending;
  accel_type = desc.accel_type;
  priority = desc.priority;
  input_addr = desc.input_addr;
  input_size = desc.input_size;
  output_addr = desc.output_addr;
  output_size = desc.output_size;
  timeout_ms = desc.timeout_ms;
  submit_jiffies = now;
  complete_jiffies = 0;
  error_code = ok;
  done = false;
}

abbrev pub as_cancelled : Task → Task
as_cancelled t = record {
  id = t.id;
  state = cancelled;
  accel_type = t.accel_type;
  priority = t.priority;
  input_addr = t.input_addr;
  input_size = t.input_size;
  output_addr = t.output_addr;
  output_size = t.output_size;
  timeout_ms = t.timeout_ms;
  submit_jiffies = t.submit_jiffies;
  complete_jiffies = t.complete_jiffies;
  error_code = fail ecanceled;
  done = true;
}

-- The answer of a query for a task of the given times, with `hz` jiffies to the second.
abbrev pub report : (hz id status submitted completed : ℕ) → Ret → TaskStatus
report hz id status submitted completed error = record {
  task_id = id;
  status = status;
  exec_usec = (completed + 2 ^ 64 - submitted) % 2 ^ 64 * 1000000 % 2 ^ 64 / hz;
  error_code = error;
  reserved = 0 ∷ 0 ∷ 0 ∷ [];
}
